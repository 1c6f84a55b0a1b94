-- ===== src/Instances/Keeps.antt =====
-- New instances keep the invariant of the world, and their roots exist.
use smts.Prelude.{
  ℕ, ◌<◌, ◌≡◌, refl, subst, String, none, some, List, [], ◌∷◌, Memᴰ, Result, ok, err, arith,
  Bool-cases, inl, inr,
}
use Prim.Native.String.{◌++◌ as str_append}
use smts.Json.{Json, Items}
use smts.Tree.Defs.{Tree, Format, fixedpoint, new_root, init_node, new_or, new_and, init_marks}
use smts.Tree.Shape.{IsForest}
use smts.Tree.Growth.{
  new_root-IsForest, new_or-IsForest, new_or-grows, new_and-IsForest, new_and-grows,
}
use smts.World.Effects.{Exec, reads, pure, ◌>>=◌, proceed}
use smts.World.Objects.{World}
use smts.World.Running.{
  Knows, Knows-grow, Keeps, bind-Keeps, bind_node-Keeps, reads-Keeps, pure-Keeps,
}
use smts.Instances.{add_root, parse, ends_with, has_query, before}
use smts.Instances.Fixedpoint
use smts.Instances.Fixedpoint.{Problem, add_or, add_queries, read_problem}

add_root-Keeps : (ns : List ℕ) (f : Format) (name smt : String) → Keeps ns (add_root f name smt)
unfolding add_root new_root init_node
add_root-Keeps ns f name smt = record {
  at = λ w k.
      Knows-grow ns w
        (record w { tree = new_root w.tree f name smt; marks = init_marks w.marks w.tree.next }) k
        (new_root-IsForest w.tree f name smt k.0.forest) refl (omega arith);
}

-- The root that a call returns exists.
abbrev pub IsKnown : {P : Type 0} → Result (ℕ × P) × World → Type 0
IsKnown (err e, w) = Unit
IsKnown (ok (n, p), w) = n < w.tree.next

pub parse-Keeps :
    (ns : List ℕ) (smt2json : String → Result Items) (name smt : String)
    → Keeps ns (parse smt2json name smt)
unfolding parse
parse-Keeps ns smt2json name smt = elim (Bool-cases (ends_with ".mcmt" name)) [
  | inl mcmt_name ↦
      rw (mcmt_name, parse) (bind-Keeps ns _ _ (add_root-Keeps ns _ name smt) λ n. pure-Keeps ns _)
  | inr other ↦ elim (Bool-cases (has_query smt)) [
    | inl query ↦
        rw (other, query, parse)
          (bind-Keeps ns _ _ (reads-Keeps ns _)
            λ problem. bind-Keeps ns _ _ (add_root-Keeps ns _ name _) λ n. pure-Keeps ns _)
    | inr plain ↦
        rw (other, plain, parse)
          (bind-Keeps ns _ _ (add_root-Keeps ns _ name smt) λ n. pure-Keeps ns _)
  ]
]

IsKnown-proceed :
    {A P : Type 0} (r : Result A) (rest : A → Exec World (ℕ × P)) (w : World)
    → ((x : A) → IsKnown (rest x w))
    → IsKnown (proceed r rest w)
IsKnown-proceed (err e) rest w h = tt
IsKnown-proceed (ok x) rest w h = h x

pub parse-IsKnown :
    (smt2json : String → Result Items) (name smt : String) (w : World)
    → IsKnown (parse smt2json name smt w)
unfolding parse add_root new_root init_node ◌>>=◌ pure reads
parse-IsKnown smt2json name smt w = elim (Bool-cases (ends_with ".mcmt" name)) [
  | inl mcmt_name ↦ rw (mcmt_name, parse) (omega arith)
  | inr other ↦ elim (Bool-cases (has_query smt)) [
    | inl query ↦
        rw (other, query, parse)
          (IsKnown-proceed (read_problem smt2json smt)
            (λ problem. do
              n ←
                  add_root (fixedpoint problem.query) name
                    (elim (before "(query" smt) [ none ↦ smt | some front ↦ front ])
              pure (n, some problem))
            w λ problem. omega arith)
    | inr plain ↦ rw (other, plain, parse) (omega arith)
  ]
]

add_or-Keeps : (ns : List ℕ) (n : ℕ) (smt : String) → Memᴰ n ns → Keeps ns (add_or n smt)
unfolding add_or
add_or-Keeps ns n smt known = record { at = λ w k. made w k (new_or w.tree n smt) refl }
  where
    made :
        (w : World)
        → Knows ns w
        → (r : Result Tree) → new_or w.tree n smt ≡ r
        → Knows ns (add_or n smt w).1
    made w k (err e) made_r = rw (made_r, add_or) k
    made w k (ok t) made_r =
        rw (made_r, add_or)
          (Knows-grow ns w (record w { tree = t; marks = init_marks w.marks w.tree.next }) k
            (new_or-IsForest w.tree t n smt (k.1 n known) k.0.forest made_r) refl
            (omega (arith, new_or-grows w.tree t n smt made_r)))

add_or-lt :
    (n : ℕ) (smt : String) (w : World) (o : ℕ)
    → (add_or n smt w).0 ≡ ok o
    → o < (add_or n smt w).1.tree.next
unfolding add_or new_or init_node
add_or-lt n smt w o e = ground arith

add_queries-Keeps :
    (ns : List ℕ) (o : ℕ) (qs : List String) → Memᴰ o ns → Keeps ns (add_queries o qs)
unfolding add_queries
add_queries-Keeps ns o [] known = record { at = λ w k. k }
add_queries-Keeps ns o (q ∷ qs) known = record {
  at = λ w k.
      made w k (new_and w.tree (some o) (query_text q)) refl (add_queries-Keeps ns o qs known);
}
  where
    query_text : String → String
    query_text q = str_append "(query " (str_append q ")")

    made :
        (w : World)
        → Knows ns w
        → (r : Result Tree) → new_and w.tree (some o) (query_text q) ≡ r
        → Keeps ns (add_queries o qs)
        → Knows ns (add_queries o (q ∷ qs) w).1
    made w k (err e) made_r ih = rw (made_r, add_queries) k
    made w k (ok t) made_r ih =
        let w' : World = record w { tree = t; marks = init_marks w.marks w.tree.next } in
        let f' : IsForest t =
          new_and-IsForest w.tree t (some o) (query_text q)
            (λ p e. subst (λ j. j < w.tree.next) (cc) (k.1 o known)) k.0.forest made_r in
        rw (made_r, add_queries)
          (ih.at w' (
            Knows-grow ns w w' k f' refl
              (omega (arith, new_and-grows w.tree t (some o) (query_text q) made_r))))

pub partition-Keeps :
    (ns : List ℕ) (format : Json → String) (problem : Problem) (n : ℕ)
    → Memᴰ n ns
    → Keeps ns (Fixedpoint.partition format problem n)
unfolding Fixedpoint.partition
partition-Keeps ns format problem n known = bind-Keeps ns _ _ (reads-Keeps ns _) λ obj.
    bind_node-Keeps ns _ _ (add_or-Keeps ns n _ known) (λ w o k e. add_or-lt n _ w o e)
      λ o. add_queries-Keeps (o ∷ ns) o _ (Memᴰ.head refl)
