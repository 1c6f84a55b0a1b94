-- ===== src/Config/Parameters/Portfolio.antt =====
-- SALLY's portfolio: how two solvers of one instance differ.
use package.text.Mathlib.TextEquality.{eq_iff}
use smts.Prelude.{ℕ, ◌%◌, String, ◌≡◌, ◌↔◌, some, arith, Dict, lookup, lookup-insert, string_key}
use smts.World.Objects.{Value, text, Header}
use smts.Config.Parameters.{Parameter, itp_lra, itp_bool, sally_options, entrust}

-- The two options are set as the counts say, whatever the other parameters are.
entrust-sally :
    (ps : Dict String Parameter) (draw : String → Value) (count : ℕ) (h : Header)
    → (lookup "parameter.opensmt2-itp-lra" (entrust ps draw "SALLY" count h)
        ≡ some (text (itp_lra count)))
      × (lookup "parameter.opensmt2-itp-bool" (entrust ps draw "SALLY" count h)
          ≡ some (text (itp_bool count)))
unfolding entrust sally_options
entrust-sally ps draw count h = (simp lookup-insert, simp lookup-insert)

itp_lra_inj : (c d : ℕ) → (itp_lra c ≡ itp_lra d) ↔ (c % 3 ≡ d % 3)
unfolding itp_lra
itp_lra_inj c d = ground (arith, eq_iff "0" "2", eq_iff "0" "4", eq_iff "2" "4")

itp_bool_inj : (c d : ℕ) → (itp_bool c ≡ itp_bool d) ↔ (c % 2 ≡ d % 2)
unfolding itp_bool
itp_bool_inj c d = ground (arith, eq_iff "0" "1")

text-eq : {a b : String} → (some (text a) ≡ some (text b)) ↔ (a ≡ b)
text-eq = ((λ e. cc), (λ e. cc))

-- Two solvers named SALLY, told apart by the number of solvers that were at the root before them,
-- get the same two interpolation options exactly if the numbers agree modulo 6, whatever the other
-- parameters are.
pub entrust-sally_iff :
    (ps : Dict String Parameter) (draw : String → Value) (c d : ℕ) (h k : Header)
    → ((lookup "parameter.opensmt2-itp-lra" (entrust ps draw "SALLY" c h)
          ≡ lookup "parameter.opensmt2-itp-lra" (entrust ps draw "SALLY" d k))
        × (lookup "parameter.opensmt2-itp-bool" (entrust ps draw "SALLY" c h)
            ≡ lookup "parameter.opensmt2-itp-bool" (entrust ps draw "SALLY" d k)))
      ↔ (c % 6 ≡ d % 6)
entrust-sally_iff ps draw c d h k =
    let (lra, bool) = entrust-sally ps draw c h in
    let (lra', bool') = entrust-sally ps draw d k in
    rw (lra, lra', bool, bool')
      (
        (λ e.
            let three = (itp_lra_inj c d).0 (text-eq.0 e.0) in
            let two = (itp_bool_inj c d).0 (text-eq.0 e.1) in omega (arith, three, two)),
        (λ e. (
          text-eq.1 ((itp_lra_inj c d).1 (omega (arith, e))),
          text-eq.1 ((itp_bool_inj c d).1 (omega (arith, e))),
        )),
      )
