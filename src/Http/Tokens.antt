-- ===== src/Http/Tokens.antt =====
-- The header `Authorization` as the clients write it and the servers read it.
use ez_vpn_lego.Prelude.{◌≡◌, refl, ap, ◌<>◌, String, some, eq_self, nat_eq}
use ez_vpn_lego.Prelude.Text.{code_of}
use package.ez_vpn_lego.Http.{after_prefix, or_whole, trim_prefix}

after_prefix-append : (p s : String) → after_prefix p (p <> s) ≡ some s
unfolding after_prefix ◌<>◌
after_prefix-append String.[] s = refl
after_prefix-append (String.◌∷◌ c p) s = rw (eq_self (code_of c)) (after_prefix-append p s)

-- `strings.TrimPrefix` takes off what `+` put before.
pub trim_prefix-append : (p s : String) → trim_prefix (p <> s) p ≡ s
unfolding trim_prefix
trim_prefix-append p s = ap (or_whole (p <> s)) (after_prefix-append p s)
