-- ===== src/Config/Startup/Ports.antt =====
-- What the main program starts: which processes, and where they connect to.
use package.text.Mathlib.TextEquality.{eq_iff}
use smts.Prelude.{
  ℕ, zero, suc, ◌+◌, String, Bool, true, false, ◌||◌, ◌&&◌, Option, none, List, [], ◌∷◌, ◌++◌, ok,
  err, system_exit, if◌then◌else◌, ◌==◌, listed, show_nat, line, ◌≡◌, refl, ◌∙◌, ap, sym, arith, ap,
  sym, Option-cases, inl, inr,
}
use smts.Config.Startup.{
  Arguments, Settings, given_number, configure, Start, server, page, process, sender, local_address,
  lemma_server_options, lemma_server_arguments, run_solvers, lacks_database, page_of,
  lemma_server_of, solvers_of, sender_of, set_text, start_up,
}

-- The arguments of a process name the server's address: as one option, or behind the option.
unfoldable pub names_server : ℕ → List String → Bool
unfolding local_address line listed
names_server p args =
    listed (line ("-s" ∷ local_address p ∷ [])) args
    || (listed "-s" args && listed (local_address p) args)

unfoldable pub is_on : ℕ → Start → Bool
unfolding names_server
is_on p (server q) = q == p
is_on p (page q) = q == p
is_on p (process args) = names_server p args
is_on p (sender paths q) = q == p

-- All that is started uses this port.
unfoldable pub all_on : ℕ → List Start → Bool
unfolding is_on
all_on p [] = true
all_on p (s ∷ ss) = is_on p s && all_on p ss

abbrev program_of : List String → List String
program_of [] = []
program_of (program ∷ args) = program ∷ []

-- The programs that are started, in their order
unfoldable pub programs : List Start → List String
programs [] = []
programs (process args ∷ ss) = program_of args ++ programs ss
programs (_ ∷ ss) = programs ss

unfoldable pub copies : ℕ → String → List String
copies zero program = []
copies (suc n) program = program ∷ copies n program

all_on-append : (p : ℕ) (ss ts : List Start) → all_on p (ss ++ ts) ≡ (all_on p ss && all_on p ts)
unfolding all_on
all_on-append p [] ts = refl
all_on-append p (s ∷ ss) ts = ground (arith, all_on-append p ss ts)

append_assoc : (xs ys zs : List String) → (xs ++ ys) ++ zs ≡ xs ++ (ys ++ zs)
append_assoc [] ys zs = refl
append_assoc (x ∷ xs) ys zs = ap (λ l. x ∷ l) (append_assoc xs ys zs)

append_nil : (xs : List String) → xs ++ [] ≡ xs
append_nil [] = refl
append_nil (x ∷ xs) = ap (λ l. x ∷ l) (append_nil xs)

programs-append : (ss ts : List Start) → programs (ss ++ ts) ≡ programs ss ++ programs ts
unfolding programs
programs-append [] ts = refl
programs-append (process args ∷ ss) ts =
    ap (λ l. program_of args ++ l) (programs-append ss ts)
    ∙ sym (append_assoc (program_of args) (programs ss) (programs ts))
programs-append (server q ∷ ss) ts = programs-append ss ts
programs-append (page q ∷ ss) ts = programs-append ss ts
programs-append (sender paths q ∷ ss) ts = programs-append ss ts

-- A list of starts that stays on a port, with its programs
record Counted (p : ℕ) (names : List String) (ss : List Start) : Type 0 where
  on : all_on p ss ≡ true
  are : programs ss ≡ names

Counted-append :
    (p : ℕ) (ms ns : List String) (ss ts : List Start)
    → Counted p ms ss
    → Counted p ns ts
    → Counted p (ms ++ ns) (ss ++ ts)
Counted-append p ms ns ss ts a b = record {
  on = all_on-append p ss ts ∙ ground (arith, a.on, b.on);
  are = programs-append ss ts ∙ rw (a.are, b.are) refl;
}

Counted-run_solvers :
    (program : String) (n p : ℕ) → Counted p (copies n program) (run_solvers program n p)
unfolding run_solvers all_on programs copies is_on names_server listed
Counted-run_solvers program zero p = record { on = refl; are = refl }
Counted-run_solvers program (suc n) p =
    let rest = Counted-run_solvers program n p in
    let self = eq_iff (line ("-s" ∷ local_address p ∷ [])) (line ("-s" ∷ local_address p ∷ [])) in
    record { on = ground (arith, rest.on, self); are = ap (λ l. program ∷ l) rest.are }

second_listed : (a b : String) (rest : List String) → listed b (a ∷ b ∷ rest) ≡ true
unfolding listed
second_listed a b rest = ground (arith, eq_iff b b)

third_listed : (a b c : String) (rest : List String) → listed c (a ∷ b ∷ c ∷ rest) ≡ true
unfolding listed
third_listed a b c rest = ground (arith, eq_iff c c)

either_way : (x y z : Bool) → y ≡ true → z ≡ true → (x || (y && z)) ≡ true
either_way x y z h k = ground (arith, h, k)

names_server-lemma_server_arguments :
    (program : String) (database : Option String) (send_again : Bool) (p : ℕ)
    → names_server p (lemma_server_arguments program database send_again p) ≡ true
unfolding names_server lemma_server_arguments
names_server-lemma_server_arguments program database send_again p =
    let rest = "-p" ∷ show_nat (p + 2000) ∷ lemma_server_options database send_again in
    let address = local_address p in
    either_way (listed (line ("-s" ∷ address ∷ [])) (program ∷ "-s" ∷ address ∷ rest)) _ _
      (second_listed program "-s" (address ∷ rest)) (third_listed program "-s" address rest)

Counted-lemma_server_of :
    (sharing : Bool) (c : Settings)
    → Counted c.port
        (if sharing then line (c.build_path ∷ "/lemma_server" ∷ []) ∷ [] else [])
        (lemma_server_of sharing c)
unfolding lemma_server_of lemma_server_arguments all_on programs is_on
Counted-lemma_server_of true c = record {
  on = ground (
    arith,
    names_server-lemma_server_arguments (line (c.build_path ∷ "/lemma_server" ∷ []))
        (if c.lemma_db_path then c.db_path else none) c.lemma_resend c.port,
  );
  are = refl;
}
Counted-lemma_server_of false c = record { on = refl; are = refl }

Counted-page_of : (c : Settings) → Counted c.port [] (page_of c)
unfolding page_of all_on programs is_on
Counted-page_of c = record { on = ground arith; are = ground arith }

Counted-sender_of : (files : Option String) (c : Settings) → Counted c.port [] (sender_of files c)
unfolding sender_of all_on programs is_on
Counted-sender_of files c = elim (Option-cases (set_text files)) [
  | inl e ↦ record { on = rw (e, sender_of) refl; are = rw (e, sender_of) refl }
  | inr (paths, e) ↦ record { on = rw (e, sender_of) (ground arith); are = rw (e, sender_of) refl }
]

-- Whatever the main program starts, it tells it the port on which the server listens: the option `-pn`,
-- if that is not 0, or else the setting. The processes run these programs of the build directory: first
-- the lemma server if lemmas are shared, then as many copies of `solver_opensmt`, of `solver_z3spacer`
-- and of `solver_sally`, in this order, as the options or else the settings ask for. Partitions are made only with the option `-p`. If the
-- settings are only listed, or the page is asked for without a database, nothing is returned.
pub start_up-all_on :
    (a : Arguments) (s : Settings)
    → ((configure a s).port ≡ given_number a.port s.port)
      × (a.partitioning ≡ false → (configure a s).config.partition_timeout ≡ none)
      × ((a.is_list || lacks_database (configure a s)) ≡ true → start_up a s ≡ err system_exit)
      × ((a.is_list || lacks_database (configure a s)) ≡ false
          → (starts : List Start) × (start_up a s ≡ ok starts)
            × (all_on (given_number a.port s.port) starts ≡ true)
            × (programs starts
                ≡ (if a.lemma_sharing then line (s.build_path ∷ "/lemma_server" ∷ []) ∷ [] else [])
                  ++ (copies
                        (given_number a.opensmt s.opensmt)
                        (line (s.build_path ∷ "/solver_opensmt" ∷ []))
                      ++ (copies
                            (given_number a.z3spacer s.z3spacer)
                            (line (s.build_path ∷ "/solver_z3spacer" ∷ []))
                          ++ copies
                              (given_number a.sally s.sally)
                              (line (s.build_path ∷ "/solver_sally" ∷ []))))))
unfolding start_up configure all_on programs is_on solvers_of
start_up-all_on a s =
    let c = configure a s in
    let solver_program : String → String = λ name. line (c.build_path ∷ name ∷ []) in
    let solvers =
      Counted-append c.port _ _ _ _
        (Counted-run_solvers (solver_program "/solver_opensmt") c.opensmt c.port)
        (Counted-append c.port _ _ _ _
          (Counted-run_solvers (solver_program "/solver_z3spacer") c.z3spacer c.port)
          (Counted-run_solvers (solver_program "/solver_sally") c.sally c.port)) in
    let all = Counted-append c.port _ _ _ _ (Counted-page_of c) (
      Counted-append c.port _ _ _ _ (Counted-lemma_server_of a.lemma_sharing c)
        (Counted-append c.port _ _ _ _ solvers (Counted-sender_of a.file_paths c))) in
    let lemmas = if a.lemma_sharing then line (s.build_path ∷ "/lemma_server" ∷ []) ∷ [] else [] in
    (
      refl,
      λ h. rw h refl,
      λ h. rw (h, start_up) refl,
      λ h. (
        server c.port
            ∷ (page_of c
                ++ (lemma_server_of a.lemma_sharing c
                    ++ (solvers_of c ++ sender_of a.file_paths c))),
        rw (h, start_up) refl,
        ground (arith, all.on),
        all.are ∙ ap (λ l. lemmas ++ l) (append_nil _),
      ),
    )
