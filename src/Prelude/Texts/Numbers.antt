-- ===== src/Prelude/Texts/Numbers.antt =====
-- Numbers survive `int(str(n))`.
use Prim.Native.Nat.{ℕ, zero, suc, ◌+◌, ◌-◌, ◌*◌, ◌/◌, ◌%◌, ◌<◌}
use Prim.Native.Char.{code}
use Prim.Native.String.{String, ◌++◌}
use Prim.Native.String.append
use mathlib.Core.Path.{◌≡◌, refl, ap, ◌∙◌}
use mathlib.Core.Logic.{inl, inr}
use mathlib.Core.Bool.{Bool, true, false, ◌&&◌}
use native.Mathlib.Omega.{arith}
use smts.Prelude.Tests.{◌==◌, ltb, leb, if◌then◌else◌, Bool-cases}
use smts.Prelude.Results.{ok, ◌>>=◌}
use smts.Prelude.Texts.{digit, show_within, show_nat, int_from, int, is_empty}

append_cons :
    (c : Prim.Native.Char.Char) (s t : String) → (String.◌∷◌ c s) ++ t ≡ String.◌∷◌ c (s ++ t)
append_cons c s t = append.cons c s t

append_nil : (t : String) → String.[] ++ t ≡ t
append_nil t = append.nil t

-- One digit more
int_from-digit : (v d : ℕ) → d < 10 → int_from v (digit d) ≡ ok (v * 10 + d)
unfolding int_from digit
int_from-digit v zero small = ap ok (omega arith)
int_from-digit v (suc zero) small = ap ok (omega arith)
int_from-digit v (suc (suc zero)) small = ap ok (omega arith)
int_from-digit v (suc (suc (suc zero))) small = ap ok (omega arith)
int_from-digit v (suc (suc (suc (suc zero)))) small = ap ok (omega arith)
int_from-digit v (suc (suc (suc (suc (suc zero))))) small = ap ok (omega arith)
int_from-digit v (suc (suc (suc (suc (suc (suc zero)))))) small = ap ok (omega arith)
int_from-digit v (suc (suc (suc (suc (suc (suc (suc zero))))))) small = ap ok (omega arith)
int_from-digit v (suc (suc (suc (suc (suc (suc (suc (suc zero)))))))) small = ap ok (omega arith)
int_from-digit v (suc (suc (suc (suc (suc (suc (suc (suc (suc zero))))))))) small =
    ap ok (omega arith)
int_from-digit v (suc (suc (suc (suc (suc (suc (suc (suc (suc (suc d)))))))))) small =
    absurd (omega (arith, small))

-- A text behind another one
int_from-append :
    (v : ℕ) (s t : String) → int_from v (s ++ t) ≡ (int_from v s >>= λ u. int_from u t)
unfolding int_from
int_from-append v String.[] t = ap (int_from v) (append_nil t)
int_from-append v (String.◌∷◌ c s) t =
    ap (int_from v) (append_cons c s t) ∙ elim (Bool-cases (leb 48 (code c) && leb (code c) 57)) [
      | inl is_digit ↦ rw is_digit (int_from-append (v * 10 + (code c - 48)) s t)
      | inr other ↦ rw other refl
    ]

int_from-show_within : (f n : ℕ) → n < f → int_from 0 (show_within f n) ≡ ok n
unfolding show_within
int_from-show_within zero n lt = absurd (omega (arith, lt))
int_from-show_within (suc f) n lt = elim (Bool-cases (ltb n 10)) [
  | inl small ↦ rw small (int_from-digit 0 n (ground (arith, small)) ∙ ap ok (omega arith))
  | inr large ↦
      let front = int_from-show_within f (n / 10) (ground (arith, lt, large)) in
      rw large (
        int_from-append 0 (show_within f (n / 10)) (digit (n % 10))
        ∙ ap (λ r. r >>= λ u. int_from u (digit (n % 10))) front
        ∙ int_from-digit (n / 10) (n % 10) (omega arith)
        ∙ ap ok (omega arith))
]

either :
    (b : Bool) (s t : String)
    → is_empty s ≡ false
    → is_empty t ≡ false
    → is_empty (if b then s else t) ≡ false
either true s t h k = h
either false s t h k = k

is_empty-digit : (n : ℕ) → is_empty (digit n) ≡ false
unfolding digit
is_empty-digit n = either (n == 0) _ _ refl (
    either (n == 1) _ _ refl (
      either (n == 2) _ _ refl (
        either (n == 3) _ _ refl (
          either (n == 4) _ _ refl (
            either (n == 5) _ _ refl (
              either (n == 6) _ _ refl
                (either (n == 7) _ _ refl (either (n == 8) _ _ refl refl))))))))

is_empty-append : (s t : String) → is_empty t ≡ false → is_empty (s ++ t) ≡ false
is_empty-append String.[] t h = ap is_empty (append_nil t) ∙ h
is_empty-append (String.◌∷◌ c s) t h = ap is_empty (append_cons c s t)

pub is_empty-show_nat : (n : ℕ) → is_empty (show_nat n) ≡ false
unfolding show_nat show_within
is_empty-show_nat n = elim (Bool-cases (ltb n 10)) [
  | inl small ↦ rw small (is_empty-digit n)
  | inr large ↦
      rw large (is_empty-append (show_within n (n / 10)) (digit (n % 10)) (is_empty-digit (n % 10)))
]

pub int-show_nat : (n : ℕ) → int (show_nat n) ≡ ok n
unfolding int show_nat
int-show_nat n = rw (is_empty-show_nat n) (int_from-show_within (suc n) n (omega arith))
