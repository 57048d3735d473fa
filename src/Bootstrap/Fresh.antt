-- ===== src/Bootstrap/Fresh.antt =====
-- The sets of what a loop has seen: they hold no text twice exactly when the texts are distinct.
use citius_server.Prelude.{
  ◌≡◌, refl, ◌≢◌, ◌↔◌, Bool, true, false, not, List, [], ◌∷◌, arith, Text, text_eq_iff, All,
}
use citius_server.Bootstrap.Checked.{Problem, Passes, guard, guard-Passes, iff_trans}
use citius_server.Bootstrap.Web.{contains}
use citius_server.Bootstrap.Users.{check_field}
use citius_server.Bootstrap.Acceptable.{AreDistinct, IsTidy}
use citius_server.Auth.Config.{trim_space, trim_left, trim_right}

-- No text is among those before it, nor among the ones seen at the start.
abbrev pub Fresh : List Text → List Text → Type 0
Fresh seen [] = Unit {0}
Fresh seen (t ∷ ts) = (contains seen t ≡ false) × Fresh (t ∷ seen) ts

abbrev pub NotIn : List Text → Text → Type 0
NotIn seen t = contains seen t ≡ false

NotIn-more :
    (t : Text) (seen ts : List Text)
    → All (NotIn (t ∷ seen)) ts ↔ (All (λ s. s ≢ t) ts × All (NotIn seen) ts)
NotIn-more t seen [] = (λ h. (tt, tt), λ h. tt)
NotIn-more t seen (s ∷ ts) = (
  λ h.
      let rest = (NotIn-more t seen ts).0 h.1 in
      let here : contains (t ∷ seen) s ≡ false = h.0 in
      (
        (λ (e : s ≡ t). ground (arith, text_eq_iff t s), rest.0),
        (ground (arith, text_eq_iff t s), rest.1),
      ),
  λ h. (ground (arith, text_eq_iff t s, h.0.0), (NotIn-more t seen ts).1 (h.0.1, h.1.1)),
)

pub Fresh-AreDistinct :
    (seen ts : List Text) → Fresh seen ts ↔ (AreDistinct ts × All (NotIn seen) ts)
Fresh-AreDistinct seen [] = (λ h. (tt, tt), λ h. tt)
Fresh-AreDistinct seen (t ∷ ts) = (
  λ h.
      let rest = (Fresh-AreDistinct (t ∷ seen) ts).0 h.1 in
      let split = (NotIn-more t seen ts).0 rest.1 in ((split.0, rest.0), (h.0, split.1)),
  λ h.
      (h.1.0, (Fresh-AreDistinct (t ∷ seen) ts).1 (h.0.1, (NotIn-more t seen ts).1 (h.0.0, h.1.1))),
)

All-NotIn_nil : (ts : List Text) → All (NotIn []) ts
All-NotIn_nil [] = tt
All-NotIn_nil (t ∷ ts) = (refl, All-NotIn_nil ts)

pub Fresh-nil_iff : (ts : List Text) → Fresh [] ts ↔ AreDistinct ts
Fresh-nil_iff ts =
    (λ h. ((Fresh-AreDistinct [] ts).0 h).0, λ h. (Fresh-AreDistinct [] ts).1 (h, All-NotIn_nil ts))

pub not_iff : (b : Bool) → (not b ≡ true) ↔ (b ≡ false)
not_iff true = (λ h. cc, λ h. cc)
not_iff false = (λ h. refl, λ h. refl)

pub guard-not-Passes : (b : Bool) (p : Problem) → Passes (guard (not b) p) ↔ (b ≡ false)
guard-not-Passes b p = iff_trans (guard-Passes (not b) p) (not_iff b)

pub trim_space_nil : trim_space [] ≡ []
unfolding trim_space trim_left trim_right
trim_space_nil = refl

pub check_field-IsTidy : (v : Text) → Passes (check_field v) ↔ IsTidy v
unfolding check_field
check_field-IsTidy v = (
  λ h.
      let same : trim_space v ≡ v =
        ground (arith, text_eq_iff (trim_space v) [], text_eq_iff v (trim_space v)) in
      (λ (e : v ≡ []). ground (arith, text_eq_iff (trim_space v) [], trim_space_nil), same),
  λ h. ground (arith, text_eq_iff (trim_space v) [], text_eq_iff v (trim_space v), h.0, h.1),
)
