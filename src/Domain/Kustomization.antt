-- ===== src/Domain/Kustomization.antt =====
-- The edits of `kustomization.yaml` in domain/domain.service.ts, and the files they name
-- (deploy/templates.ts).
use swkoo_kr.Prelude.{ℕ, Bool, not, ◌||◌, List, [], ◌∷◌, ◌++◌, if◌then◌else◌, ◌==◌, any, keep}
use swkoo_kr.Prelude.Texts.{Text, lit, text_eq, trim, ends_with, starts_with, split, join}

abbrev pub newline : ℕ
newline = 10

unfoldable pub get_custom_domain_ingress_path : Text → Text
get_custom_domain_ingress_path app_name = app_name ++ lit "/custom-domain-ingress.yaml"

-- `  - ${appName}/custom-domain-ingress.yaml`
unfoldable pub entry_line : Text → Text
unfolding get_custom_domain_ingress_path
entry_line app_name = lit "  - " ++ get_custom_domain_ingress_path app_name

abbrev pub is_entry : Text → Text → Bool
is_entry entry l = trim l == trim entry

unfoldable pub add_entry : Text → Text → Text
unfolding entry_line
add_entry app_name current =
    if any (is_entry (entry_line app_name)) (split newline current)
    then current
    else (if ends_with current (newline ∷ []) then current else current ++ newline ∷ [])
      ++ (entry_line app_name ++ newline ∷ [])

abbrev pub stays : Text → Text → Bool
stays entry l = not (ends_with (trim l) entry) || not (starts_with (trim l) (lit "-"))

unfoldable pub remove_entry : Text → Text → Text
unfolding get_custom_domain_ingress_path
remove_entry app_name current =
    join (newline ∷ [])
      (keep (stays (get_custom_domain_ingress_path app_name)) (split newline current))

-- The lines of the custom-domain Ingress, and the header of generated files.
abbrev ingress_lines : Text → Text → Text → List Text
ingress_lines login app_name domain =
    lit
      "# Generated by swkoo.kr — do not edit; re-deploy from https://swkoo.kr/deploy to regenerate."
    ∷ lit "apiVersion: networking.k8s.io/v1"
    ∷ lit "kind: Ingress"
    ∷ lit "metadata:"
    ∷ (lit "  name: " ++ app_name ++ lit "-custom-domain")
    ∷ (lit "  namespace: user-" ++ login)
    ∷ lit "  annotations:"
    ∷ lit "    cert-manager.io/cluster-issuer: letsencrypt-prod"
    ∷ lit "    traefik.ingress.kubernetes.io/router.entrypoints: websecure"
    ∷ lit "  labels:"
    ∷ (lit "    app: " ++ app_name)
    ∷ (lit "    swkoo.kr/user: " ++ login)
    ∷ lit "spec:"
    ∷ lit "  ingressClassName: traefik"
    ∷ lit "  tls:"
    ∷ lit "    - hosts:"
    ∷ (lit "        - " ++ domain)
    ∷ (lit "      secretName: " ++ app_name ++ lit "-custom-domain-tls")
    ∷ lit "  rules:"
    ∷ (lit "    - host: " ++ domain)
    ∷ lit "      http:"
    ∷ lit "        paths:"
    ∷ lit "          - path: /"
    ∷ lit "            pathType: Prefix"
    ∷ lit "            backend:"
    ∷ lit "              service:"
    ∷ (lit "                name: " ++ app_name)
    ∷ lit "                port:"
    ∷ lit "                  number: 80"
    ∷ []
    ∷ []

unfoldable pub render_custom_domain_ingress : Text → Text → Text → Text
render_custom_domain_ingress login app_name domain =
    join (newline ∷ []) (ingress_lines login app_name domain)
