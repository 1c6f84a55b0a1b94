-- ===== src/Server/Turn/Moves/Spare.antt =====
-- How many solvers may leave a node when its partitions have arrived.
use smts.Prelude.{
  ℕ, Bool, ◌-◌, ◌≤◌, ◌≡◌, refl, true, false, not, ◌&&◌, List, [], ◌∷◌, Memᴰ, length, ltb, inl, inr,
  Bool-cases, arith,
}
use smts.Server.Turn.{is_in}
use smts.Server.Turn.Moves.{spare_solvers}

and_not : (a b : Bool) → (a && not b) ≡ true → b ≡ false
and_not a b h = ground arith

spare_solvers-le :
    (least : ℕ) (idle : List ℕ) (counter : ℕ) (is : List ℕ)
    → length (spare_solvers least idle counter is) ≤ counter - least
unfolding spare_solvers
spare_solvers-le least idle counter [] = omega arith
spare_solvers-le least idle counter (i ∷ is) =
    ground
      (arith, spare_solvers-le least idle counter is, spare_solvers-le least idle (counter - 1) is)

-- Solvers that are not idle go until `least` of them are left.
spare_solvers_all :
    (least : ℕ) (idle : List ℕ) (counter : ℕ) (is : List ℕ)
    → counter - least ≤ length is
    → ((i : ℕ) → Memᴰ i is → is_in i idle ≡ false)
    → length (spare_solvers least idle counter is) ≡ counter - least
unfolding spare_solvers
spare_solvers_all least idle counter [] h none_idle = omega arith
spare_solvers_all least idle counter (i ∷ is) h none_idle = ground (
  arith,
  none_idle i (Memᴰ.head refl),
  spare_solvers_all least idle counter is,
  spare_solvers_all least idle (counter - 1) is (omega arith) λ j m. none_idle j (Memᴰ.tail m),
  spare_solvers-le least idle counter is,
)

spare_solvers-busy :
    (least : ℕ) (idle : List ℕ) (counter : ℕ) (is : List ℕ) (i : ℕ)
    → Memᴰ i (spare_solvers least idle counter is)
    → Memᴰ i is × (is_in i idle ≡ false)
unfolding spare_solvers
spare_solvers-busy least idle counter [] i m = elim m [ ]
spare_solvers-busy least idle counter (j ∷ is) i m =
    elim (Bool-cases (ltb least counter && not (is_in j idle))) [
      | inl goes ↦ elim (rw (goes, spare_solvers) at m) [
        | Memᴰ.head e ↦ (Memᴰ.head e, rw e (and_not (ltb least counter) (is_in j idle) goes))
        | Memᴰ.tail m' ↦
            let (found, free) = spare_solvers-busy least idle (counter - 1) is i m' in
            (Memᴰ.tail found, free)
      ]
      | inr stays ↦
          let (found, free) =
            spare_solvers-busy least idle counter is i (rw (stays, spare_solvers) at m) in
          (Memᴰ.tail found, free)
    ]

-- The three facts about the solvers that may leave a node: they are at most as many as are above
-- `least`, exactly as many if none of the node's solvers is idle, and each of them
-- is a solver of the node that is not idle.
pub spare_solvers_lem :
    (least : ℕ) (idle is : List ℕ)
    → (length (spare_solvers least idle (length is) is) ≤ length is - least)
      × (((i : ℕ) → Memᴰ i is → is_in i idle ≡ false)
          → length (spare_solvers least idle (length is) is) ≡ length is - least)
      × ((i : ℕ)
          → Memᴰ i (spare_solvers least idle (length is) is)
          → Memᴰ i is × (is_in i idle ≡ false))
spare_solvers_lem least idle is = (
  spare_solvers-le least idle (length is) is,
  spare_solvers_all least idle (length is) is (omega arith),
  λ i. spare_solvers-busy least idle (length is) is i,
)
