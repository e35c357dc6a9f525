-- ===== src/Authz/Header.antt =====
-- The permissions header written and read back.
use Prim.Native.Char.{Char, code}
use Prim.Native.String.{String, [], ◌∷◌, ◌++◌}
use text.Mathlib.TextLemmas.{nil-append, cons-append}
use phera.Common.{
  ℕ, ◌≡◌, refl, ap, ◌∙◌, Bool, false, some, List, ◌==◌, eqb, Dict, put, put_all, strip, split_on,
  split_once, is_space, rstrip, cons-ne-empty,
}
use phera.Authz.Actor.{parse_part, parse_parts, parse_permissions_header}
use mathlib.Core.List.{[], ◌∷◌}

-- "code:access,code:access,…"
abbrev entry : String → String → String
entry k v = k ++ (":" ∷ v)

unfoldable pub render : String → String → List (String × String) → String
render k v [] = entry k v
render k v ((k', v') ∷ kvs) = entry k v ++ ("," ∷ render k' v' kvs)

-- No character of the text is one of those.
abbrev pub Lacks : (ℕ → Bool) → String → Type 0
Lacks bad [] = Unit
Lacks bad (c ∷ s) = (bad (code c) ≡ false) × Lacks bad s

abbrev is_comma : ℕ → Bool
is_comma c = eqb c b','

abbrev is_colon : ℕ → Bool
is_colon c = eqb c b':'

pub Lacks-append :
    (bad : ℕ → Bool) (s : String) (c : Char) (t : String)
    → Lacks bad s
    → bad (code c) ≡ false
    → Lacks bad t
    → Lacks bad (s ++ (c ∷ t))
Lacks-append bad [] c t h p k = rw nil-append (p, k)
Lacks-append bad (d ∷ s) c t h p k = rw cons-append (h.0, Lacks-append bad s c t h.1 p k)

split_on-Lacks : (s : String) → Lacks is_comma s → split_on b',' s ≡ s ∷ []
unfolding split_on
split_on-Lacks [] h = refl
split_on-Lacks (c ∷ s) h = rw (h.0, split_on-Lacks s h.1)

split_on-append :
    (s t : String) → Lacks is_comma s → split_on b',' (s ++ ("," ∷ t)) ≡ s ∷ split_on b',' t
unfolding split_on
split_on-append [] t h = rw nil-append
split_on-append (c ∷ s) t h = rw cons-append (rw (h.0, split_on-append s t h.1))

split_once-append :
    (s t : String) → Lacks is_colon s → split_once b':' (s ++ (":" ∷ t)) ≡ some (s, t)
unfolding split_once
split_once-append [] t h = rw nil-append
split_once-append (c ∷ s) t h = rw cons-append (rw (h.0, split_once-append s t h.1))

rstrip-Lacks : (s : String) → Lacks is_space s → rstrip s ≡ s
unfolding rstrip
rstrip-Lacks [] h = refl
rstrip-Lacks (c ∷ s) h = rw (h.0, rstrip-Lacks s h.1)

strip-Lacks : (s : String) → Lacks is_space s → strip s ≡ s
unfolding strip
strip-Lacks [] h = refl
strip-Lacks (c ∷ s) h = rw h.0 (rstrip-Lacks (c ∷ s) h)

-- A code and its access as they may stand in a header: no comma and no space, and no colon in the
-- code.
pub record IsEntry (k v : String) : Type 0 where
  pub code_comma : Lacks is_comma k
  pub code_colon : Lacks is_colon k
  pub code_space : Lacks is_space k
  pub access_comma : Lacks is_comma v
  pub access_space : Lacks is_space v

abbrev pub AllEntries : List (String × String) → Type 0
AllEntries [] = Unit
AllEntries ((k, v) ∷ kvs) = IsEntry k v × AllEntries kvs

entry-ne-empty : (k v : String) → (entry k v == "") ≡ false
entry-ne-empty [] v = rw (nil-append, cons-ne-empty)
entry-ne-empty (c ∷ k) v = rw (cons-append, cons-ne-empty)

entry-is_space : (k v : String) → IsEntry k v → Lacks is_space (entry k v)
unfolding is_space
entry-is_space k v h = Lacks-append is_space k ":" v h.code_space refl h.access_space

entry-is_comma : (k v : String) → IsEntry k v → Lacks is_comma (entry k v)
entry-is_comma k v h = Lacks-append is_comma k ":" v h.code_comma refl h.access_comma

parse_part-entry :
    (d : Dict String) (k v : String) → IsEntry k v → parse_part d (entry k v) ≡ put k v d
unfolding parse_part
parse_part-entry d k v h = rw (
  strip-Lacks (entry k v) (entry-is_space k v h),
  entry-ne-empty k v,
  split_once-append k v h.code_colon,
  strip-Lacks k h.code_space,
  strip-Lacks v h.access_space,
)

parse_parts-render :
    (d : Dict String) (k v : String) (kvs : List (String × String))
    → AllEntries ((k, v) ∷ kvs)
    → parse_parts d (split_on b',' (render k v kvs)) ≡ put_all ((k, v) ∷ kvs) d
unfolding parse_parts render put_all
parse_parts-render d k v [] h =
    rw (split_on-Lacks (entry k v) (entry-is_comma k v h.0), parse_part-entry d k v h.0)
parse_parts-render d k v ((k', v') ∷ kvs) h =
    rw (split_on-append (entry k v) (render k' v' kvs) (entry-is_comma k v h.0)) (
      ap (λ e. parse_parts e (split_on b',' (render k' v' kvs))) (parse_part-entry d k v h.0)
      ∙ parse_parts-render (put k v d) k' v' kvs h.1)

render-ne-empty : (k v : String) (kvs : List (String × String)) → (render k v kvs == "") ≡ false
unfolding render
render-ne-empty k v [] = entry-ne-empty k v
render-ne-empty [] v (x ∷ kvs) = rw (nil-append, cons-append, cons-ne-empty)
render-ne-empty (c ∷ k) v (x ∷ kvs) = rw (cons-append, cons-append, cons-ne-empty)

-- A permissions header that lists one or more entries "code:access", without commas or spaces in
-- them and without a colon in the codes, is read back as these entries put into an empty
-- dictionary in order: a later entry for a code replaces the access of an earlier one.
pub parse-render :
    (k v : String) (kvs : List (String × String))
    → AllEntries ((k, v) ∷ kvs)
    → parse_permissions_header (some (render k v kvs)) ≡ put_all ((k, v) ∷ kvs) []
unfolding parse_permissions_header
parse-render k v kvs h = rw render-ne-empty (parse_parts-render [] k v kvs h)
