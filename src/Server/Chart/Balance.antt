-- ===== src/Server/Chart/Balance.antt =====
-- What the balances of the entries in the picture sum up to.
use package.text.Mathlib.Text.{◌==◌ as str_eq}
use package.text.Mathlib.TextEquality.{eq_iff}
use smts.Prelude.{
  ℕ, suc, ◌+◌, ◌≡◌, refl, sym, subst, String, Bool, false, ◌&&◌, some, [], ◌∷◌, ◌==◌, nonempty,
  if◌then◌else◌, Result, ok, err, Dict, lookup, insert, string_key, pos_part, neg_part, sub_ℕ, leb,
  ◌+ℤ◌, ◌-ℤ◌, arith, Bool-cases, inl, inr, leb→le, Option-cases,
}
use smts.World.Objects.{Header}
use smts.Server.Chart.{
  Entry, Chart, Change, new_entry, change_of, movement, ensure, entry_of, total, arrive, leave,
  record_move, current_path, target_of, target_path, collect, is_result,
}
use smts.Server.Chart.Reading.{received_count}

abbrev pub sum_by : (Entry → ℕ) → Dict String Entry → ℕ
sum_by f [] = 0
sum_by f ((k, e) ∷ d) = f e + sum_by f d

abbrev pub up : Entry → ℕ
up e = pos_part e.balance

abbrev pub down : Entry → ℕ
down e = neg_part e.balance

-- The balances of all entries sum up to `n`.
abbrev pub IsBalanced : ℕ → Dict String Entry → Type 0
IsBalanced n d = sum_by up d ≡ n + sum_by down d

-- A report that a solver has started at a node
abbrev pub is_start : String → Header → Bool
is_start message header = nonempty header && str_eq message "start"

-- A start counts one; a report that raises changes nothing.
abbrev pub Told : ℕ → String → Header → Result (Unit {0}) × Chart → Type 0
Told n message header (err e, s) = IsBalanced n s.node_dict
Told n message header (ok _, s) =
    IsBalanced (if is_start message header then suc n else n) s.node_dict

sub_ℕ_lem : (a b : ℕ) → pos_part (sub_ℕ a b) + b ≡ neg_part (sub_ℕ a b) + a
sub_ℕ_lem a b = elim (Bool-cases (leb b a)) [
  | inl le ↦ rw le (omega (arith, leb→le b a le))
  | inr gt ↦ rw gt (ground (arith, gt))
]

module _ (f : Entry → ℕ) (none_yet : f new_entry ≡ 0) where
  sum-insert :
      (k : String) (v : Entry) (d : Dict String Entry)
      → sum_by f (insert k v d) + f (entry_of k d) ≡ sum_by f d + f v
  unfolding insert entry_of lookup
  sum-insert k v [] = omega (arith, none_yet)
  sum-insert k v ((j, e) ∷ d) = elim (Bool-cases (str_eq j k)) [
    | inl same ↦ rw (same, insert, entry_of, lookup) (omega arith)
    | inr other ↦ rw (other, insert, entry_of, lookup) (omega (arith, sum-insert k v d))
  ]

  sum-ensure : (k : String) (d : Dict String Entry) → sum_by f (ensure k d) ≡ sum_by f d
  unfolding ensure entry_of
  sum-ensure k d = elim (Option-cases (lookup k d)) [
    | inl missing ↦
        let nothing : f (entry_of k d) ≡ 0 = rw (missing, entry_of) none_yet in
        rw (missing, ensure) (omega (arith, sum-insert k new_entry d, nothing, none_yet))
    | inr (e, there) ↦ rw (there, ensure) refl
  ]

-- An entry is put in place of another one, whose balance was lower by `p` and higher by `q`.
insert-IsBalanced :
    (n p q : ℕ) (k : String) (v : Entry) (d : Dict String Entry)
    → up v + down (entry_of k d) + q ≡ down v + up (entry_of k d) + p
    → IsBalanced n d
    → sum_by up (insert k v d) + q ≡ n + p + sum_by down (insert k v d)
insert-IsBalanced n p q k v d moved balanced =
    omega (arith, moved, balanced, sum-insert up refl k v d, sum-insert down refl k v d)

arrive_lem :
    (rank : ℕ) (c : Change) (e : Entry)
    → up (arrive rank c e) + down e ≡ down (arrive rank c e) + up e + total c
unfolding arrive ◌+ℤ◌
arrive_lem rank c e =
    omega (arith, sub_ℕ_lem (pos_part e.balance + total c) (neg_part e.balance + 0))

leave_lem :
    (c : Change) (e : Entry)
    → up (leave c e) + down e + (if c.start == 0 then total c else 0) ≡ down (leave c e) + up e
unfolding leave ◌-ℤ◌
leave_lem c e = omega (
  arith,
  sub_ℕ_lem (pos_part e.balance + 0) (neg_part e.balance + (if c.start == 0 then total c else 0)),
)

movement-start : (current target : String) → (movement current target).start ≡ 0
unfolding movement
movement-start current target = ground arith

change_of-start :
    (message current target : String)
    → str_eq message "start" ≡ false
    → (change_of message current (some target)).start ≡ 0
unfolding change_of
change_of-start message current target other = elim (Option-cases (received_count message)) [
  | inl missing ↦ rw (missing, other, change_of) (ground (arith, movement-start current target))
  | inr (n, there) ↦ rw (there, change_of) refl
]

starts_once :
    (current target : String)
    → let c = change_of "start" current (some target) in
      (if c.start == 0 then total c else 0) + 1 ≡ total c
unfolding change_of received_count
starts_once current target = refl

-- What is not taken from the one entry is the start.
change_of-total :
    (message current target : String)
    → let c = change_of message current (some target) in
      (if c.start == 0 then total c else 0) + (if str_eq message "start" then 1 else 0) ≡ total c
change_of-total message current target = elim (Bool-cases (str_eq message "start")) [
  | inl same ↦ rw (same) (
      subst
        (λ m.
          let c = change_of m current (some target) in
          (if c.start == 0 then total c else 0) + 1 ≡ total c)
        (sym ((eq_iff message "start").0 same)) (starts_once current target))
  | inr other ↦ rw (other, change_of-start message current target other) (omega arith)
]

record_move-IsBalanced :
    (n rank : ℕ) (c : Change) (current target : String) (d : Dict String Entry)
    → IsBalanced n d
    → sum_by up (record_move rank c current (some target) d) + (if c.start == 0 then total c else 0)
      ≡ n + total c + sum_by down (record_move rank c current (some target) d)
unfolding record_move
record_move-IsBalanced n rank c current target d balanced =
    let d1 = ensure current (ensure target d) in
    let d2 = insert target (arrive rank c (entry_of target d1)) d1 in
    let first =
      insert-IsBalanced n (total c) 0 target (arrive rank c (entry_of target d1)) d1
        (omega (arith, arrive_lem rank c (entry_of target d1)))
        (omega (
          arith,
          balanced,
          sum-ensure up refl current (ensure target d),
          sum-ensure down refl current (ensure target d),
          sum-ensure up refl target d,
          sum-ensure down refl target d,
        )) in
    let second =
      insert-IsBalanced (n + total c) 0 (if c.start == 0 then total c else 0) current
        (leave c (entry_of current d2)) d2 (omega (arith, leave_lem c (entry_of current d2)))
        (omega (arith, first)) in
    omega (arith, second)

-- The balances of all entries sum up to the number of the reports that a solver has started: a report
-- of that kind adds one to the sum, and after any other report, also one that raises, it is the same,
-- since what one entry gains another one loses.
pub collect-IsBalanced :
    (message : String) (header : Header) (n : ℕ) (s : Chart)
    → IsBalanced n s.node_dict
    → Told n message header (collect message header s)
unfolding collect target_path record_move
collect-IsBalanced message [] n s balanced = omega (
  arith,
  balanced,
  sum-ensure up refl (current_path message) s.node_dict,
  sum-ensure down refl (current_path message) s.node_dict,
)
collect-IsBalanced message (h ∷ header) n s balanced = go (target_of (h ∷ header)) refl
  where
    go :
        (r : Result String)
        → target_of (h ∷ header) ≡ r
        → Told n message (h ∷ header) (collect message (h ∷ header) s)
    go (err e) named = rw (named, target_of, target_path, collect) balanced
    go (ok target) named =
        let current = current_path message in
        let c = change_of message current (some target) in
        let rank = if is_result message then s.rank + 1 else s.rank in
        rw (named, target_of, target_path, collect)
          (ground (
            arith,
            record_move-IsBalanced n rank c current target s.node_dict balanced,
            change_of-total message current target,
          ))
