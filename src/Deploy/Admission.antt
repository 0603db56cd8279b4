-- ===== src/Deploy/Admission.antt =====
-- deploy/deployment-admission.service.ts
pub data AdmissionError : Type 0 where
  capacity_unverified capacity_unavailable namespace_not_cleared : AdmissionError
