-- ===== src/Stack/Tests.antt =====
-- `shell_quote` at concrete arguments.
use pve_compose.Base.{◌≡◌, refl, [], ◌∷◌, codes, join, map, some}
use pve_compose.Stack.{escape, shell_quote, passthrough}
use pve_compose.Stack.Shell.{between, scan, scan-shell_quotes}

quoted :
    passthrough (codes "a'b" ∷ codes "" ∷ codes "c=1" ∷ [])
    ≡ codes "cd /opt/stack && docker compose 'a'\\''b' '' c=1"
unfolding passthrough shell_quote join escape
quoted = refl

scan-shell_quotes_example :
    scan between (join (codes " ") (map shell_quote (codes "a'b; rm" ∷ codes "$(x)" ∷ [])))
    ≡ some (codes "a'b; rm" ∷ codes "$(x)" ∷ [])
scan-shell_quotes_example = scan-shell_quotes (codes "a'b; rm" ∷ codes "$(x)" ∷ [])
