-- ===== src/Text/Prefix.antt =====
-- What `strings.HasPrefix` and `strings.TrimPrefix` find.
use Prim.Native.Char.{code}
use text.Mathlib.TextEquality.{Char-path}
use text.Mathlib.TextLemmas.{nil-append, cons-append}
use corncrake.Prelude.{
  ◌≡◌, refl, sym, ◌∙◌, ◌↔◌, inl, inr, ap, ℕ, true, String, some, arith, eqb, Bool-cases,
}
use corncrake.Text.{◌<>◌, strip_prefix}

strip_sound : (p s t : String) → strip_prefix p s ≡ some t → s ≡ p <> t
strip_sound String.[] s t h = let same : s ≡ t = cc in same ∙ sym (nil-append t)
strip_sound (String.◌∷◌ c p) String.[] t h = cc
strip_sound (String.◌∷◌ c p) (String.◌∷◌ d s) t h = elim (Bool-cases (eqb (code c) (code d))) [
  | inl same ↦
      let char : c ≡ d = Char-path c d (ground arith) in
      rw (char, strip_sound p s t (rw same at h)) (sym (cons-append d p t))
  | inr other ↦ cc (rw other at h)
]

eqb_refl : (n : ℕ) → eqb n n ≡ true
eqb_refl n = ground arith

strip_complete : (p t : String) → strip_prefix p (p <> t) ≡ some t
strip_complete String.[] t = ap some (nil-append t)
strip_complete (String.◌∷◌ c p) t = rw cons-append (rw (eqb_refl (code c), strip_complete p t) refl)

-- The rest behind a prefix is found exactly for the texts that start with the prefix.
pub strip_prefix_iff : (p s t : String) → (strip_prefix p s ≡ some t) ↔ (s ≡ p <> t)
strip_prefix_iff p s t = (strip_sound p s t, λ e. rw e (strip_complete p t))
