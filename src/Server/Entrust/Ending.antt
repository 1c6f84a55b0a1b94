-- ===== src/Server/Entrust/Ending.antt =====
-- The end of an instance, and `partition`, keep the server in order.
use mathlib.Core.List.Memᴰ
use package.text.Mathlib.Text.{◌==◌ as str_eq}
use smts.Prelude.{
  ℕ, zero, suc, refl, subst, String, Bool, true, false, not, none, List, [], ◌∷◌, ◌++◌, Dict,
  lookup, erase, string_key, Option-cases, Bool-cases, inl, inr,
}
use smts.World.Effects.{Exec, pure, reads, ◌>>=◌, ◌>>◌}
use smts.World.Holds.{
  Holds, bind-Holds, reads-Holds, pure-Holds, modify-Holds, when-Holds, for_each-Holds,
  option-Holds,
}
use smts.World.Objects.{World}
use smts.World.Running.{Keeps, bind-Keeps, reads-Keeps, pure-Keeps}
use smts.Solver.Keeps.{terminate-Keeps, stop-Keeps, send-Keeps, ask_partitions-Keeps}
use smts.Solver.{ask_partitions}
use smts.Server.{Server, Connection, on_world, level_children}
use smts.Server.Start.Serves.{IsServing, Serves, on_world-Serves}
use smts.Server.Partition.{partition, ask_rounds, ask_first}
use smts.Server.Finish.{finish, forget, stop_all, reset_lemmas}
use smts.Server.Entrust.{end_instance}

pub Serves-Holds :
    {A : Type 0} (ns : List ℕ) (m : Exec Server A) → Serves ns m → Holds (IsServing ns) m
Serves-Holds ns m h = record { at = h.at }

pub world-Holds :
    {A : Type 0} (ns : List ℕ) (m : Exec World A)
    → ((qs : List ℕ) → Keeps (qs ++ ns) m)
    → Holds (IsServing ns) (on_world m)
world-Holds ns m h = Serves-Holds ns _ (on_world-Serves ns m h)

erase_next :
    (first : String × ℕ) (trees fewer : Dict String ℕ) (e : String × ℕ)
    → (Memᴰ.Memᴰ e fewer → Memᴰ.Memᴰ e trees)
    → Memᴰ.Memᴰ e (first ∷ fewer)
    → Memᴰ.Memᴰ e (first ∷ trees)
erase_next first trees fewer e sub (Memᴰ.head same) = Memᴰ.head same
erase_next first trees fewer e sub (Memᴰ.tail m) = Memᴰ.tail (sub m)

erase-mem :
    (name : String) (trees : Dict String ℕ) (e : String × ℕ)
    → Memᴰ.Memᴰ e (erase name trees)
    → Memᴰ.Memᴰ e trees
unfolding erase
erase-mem name [] e m = m
erase-mem name ((j, k) ∷ trees) e m = elim (Bool-cases (str_eq j name)) [
  | inl same ↦ Memᴰ.tail (subst (Memᴰ.Memᴰ e) (rw same refl) m)
  | inr other ↦
      erase_next (j, k) trees (erase name trees) e (erase-mem name trees e)
        (subst (Memᴰ.Memᴰ e) (rw other refl) m)
]

forget-Holds : (ns : List ℕ) (name : String) → Holds (IsServing ns) (forget name)
unfolding forget
forget-Holds ns name = record {
  at = λ s g. elim (Option-cases (lookup name s.trees)) [
    | inl missing ↦ rw (missing, forget) g
    | inr (k, there) ↦
        rw (there, forget)
          (
            g.0,
            record {
              root_lt = g.1.root_lt;
              current_lt = g.1.current_lt;
              listed_lt = λ e m. g.1.listed_lt e (erase-mem name s.trees e m);
            },
          )
  ];
}

stop_all-Holds : (ns is : List ℕ) → Holds (IsServing ns) (stop_all is)
unfolding stop_all
stop_all-Holds ns [] = pure-Holds _ tt
stop_all-Holds ns (i ∷ is) =
    bind-Holds _ _ _ (world-Holds ns _ λ qs. stop-Keeps (qs ++ ns) i) λ _. stop_all-Holds ns is

reset_lemmas-Keeps : (ns : List ℕ) (j n : ℕ) → Keeps ns (reset_lemmas j n)
unfolding reset_lemmas
reset_lemmas-Keeps ns j n =
    bind-Keeps ns _ _ (reads-Keeps ns _)
      λ name. bind-Keeps ns _ _ (reads-Keeps ns _) λ at. send-Keeps ns j _ _

pub finish-Holds : (ns : List ℕ) (k : ℕ) → Holds (IsServing ns) (finish k)
unfolding finish
finish-Holds ns k = bind-Holds _ _ _ (reads-Holds _ _) λ root.
    bind-Holds _ _ _ (reads-Holds _ _) λ name. bind-Holds _ _ _ (reads-Holds _ _) λ at.
      bind-Holds _ _ _ (reads-Holds _ _) λ log.
        bind-Holds _ _ _ (when-Holds _ (not log) _ (forget-Holds ns name)) λ _.
          bind-Holds _ _ _ (reads-Holds _ _) λ working.
            bind-Holds _ _ _ (stop_all-Holds ns working) λ _.
              bind-Holds _ _ _ (reads-Holds _ _) λ lemmas.
                bind-Holds _ _ _
                  (option-Holds _ lemmas _ _ (pure-Holds _ tt)
                    λ j. world-Holds ns _ λ qs. reset_lemmas-Keeps (qs ++ ns) j root)
                  λ _. modify-Holds _ _ λ s g. (
                    g.0,
                    record {
                      root_lt = g.1.root_lt;
                      current_lt = λ j e. absurd (cc);
                      listed_lt = g.1.listed_lt;
                    },
                  )

pub end_instance-Holds : (ns : List ℕ) (k now : ℕ) → Holds (IsServing ns) (end_instance k now)
unfolding end_instance
end_instance-Holds ns k now = bind-Holds _ _ _ (reads-Holds _ _) λ over.
    bind-Holds _ _ _ (reads-Holds _ _) λ stuck. bind-Holds _ _ _ (reads-Holds _ _) λ told.
      bind-Holds _ _ _ (reads-Holds _ _) λ everyone.
        bind-Holds _ _ _
          (when-Holds _ _ _ (
            for_each-Holds _ everyone _ λ i m. world-Holds ns _ λ qs. terminate-Keeps (qs ++ ns) i))
          λ _.
            bind-Holds _ _ _ (when-Holds _ _ _ (modify-Holds _ _ λ s g. g))
              λ _. bind-Holds _ _ _ (when-Holds _ _ _ (finish-Holds ns k)) λ _. pure-Holds _ _

ask_first-Keeps :
    (ns : List ℕ) (force : Bool) (level : ℕ) (is : List ℕ) (now : ℕ)
    → Keeps ns (ask_first force level is now)
unfolding ask_first
ask_first-Keeps ns force level [] now = pure-Keeps ns false
ask_first-Keeps ns force level (i ∷ is) now = bind-Keeps ns _ _ (reads-Keeps ns _) λ due.
    elim due
      as (λ b. Keeps ns (elim b as (λ _. Exec World Bool) [
        | false ↦ ask_first force level is now
        | true ↦ (do
          count ← reads λ w. level_children w.config.partition_policy (suc level)
          ask_partitions i count none
          pure true)
      ])) [
        | false ↦ ask_first-Keeps ns force level is now
        | true ↦ bind-Keeps ns _ _ (reads-Keeps ns _) λ count.
            bind-Keeps ns _ _ (ask_partitions-Keeps ns i count none (λ p e. absurd (cc)))
              λ _. pure-Keeps ns true
      ]

ask_rounds-Keeps :
    (ns : List ℕ) (k : ℕ) (rlist : List Connection) (n : ℕ) (force : Bool) (level now : ℕ)
    → Keeps ns (ask_rounds k rlist n force level now)
unfolding ask_rounds
ask_rounds-Keeps ns zero rlist n force level now = pure-Keeps ns false
ask_rounds-Keeps ns (suc k) rlist n force level now =
    bind-Keeps ns _ _ (reads-Keeps ns _) λ at_node.
      bind-Keeps ns _ _ (ask_first-Keeps ns force level at_node now) λ asked.
        elim asked
          as (λ b. Keeps ns (elim b as (λ _. Exec World Bool) [
            | true ↦ pure true
            | false ↦ ask_rounds k rlist n force level now
          ])) [ true ↦ pure-Keeps ns true | false ↦ ask_rounds-Keeps ns k rlist n force level now ]

pub partition-Keeps :
    (ns : List ℕ) (rlist : List Connection) (n : ℕ) (force : Bool) (now : ℕ)
    → Keeps ns (partition rlist n force now)
unfolding partition
partition-Keeps ns rlist n force now = bind-Keeps ns _ _ (reads-Keeps ns _) λ level.
    bind-Keeps ns _ _ (reads-Keeps ns _) λ most.
      bind-Keeps ns _ _ (reads-Keeps ns _) λ taken. ask_rounds-Keeps ns _ rlist n force level now
