-- ===== src/Osh/Executor/Order.antt =====
-- executor.cpp: which commands of a chain `executeCommandList` runs, and in which order.
use mathlib.Core.List.{append-nil, append_assoc}
use unix_sys_prog.Common.{
  ℕ, zero, suc, ◌≤◌, ◌≡◌, ◌≢◌, ◌⊎◌, inl, inr, refl, ap, ◌∙◌, sym, subst, Bool, true, false, ◌==◌,
  ◌||◌, Option, some, none, List, [], ◌∷◌, ◌++◌, map, arith, length, drop, Bool-cases,
  if◌then◌else◌, Option-cases,
}
use unix_sys_prog.Common.Int.{ℤ}
use unix_sys_prog.Common.Text.{Text, text_eq}
use unix_sys_prog.Osh.Symbols.{exit_command}
use unix_sys_prog.Osh.Command.{Command, get_executable, set_input_fid, set_output_fid}
use unix_sys_prog.Osh.Parser.{is_pipe}
use unix_sys_prog.Osh.Executor.{
  Event, piped, pipe_failed, forked, closed, waited, System, Piping, Ending, returned, is_last,
  is_wait_for_child, is_skip_next_command, is_command_exit, make_pipe, attach_pipe, pipe_commands,
  after_fork, execute_rounds, execute_command_list,
}

-- The words of the commands that were forked, in order.
pub forks : List Event → List (Option (List Text))
forks [] = []
forks (forked c pid ∷ es) = c.argv ∷ forks es
forks (piped read write ∷ es) = forks es
forks (pipe_failed errno ∷ es) = forks es
forks (closed fid ∷ es) = forks es
forks (waited pid rval ∷ es) = forks es

forks-append : (xs ys : List Event) → forks (xs ++ ys) ≡ forks xs ++ forks ys
unfolding forks
forks-append [] ys = refl
forks-append (forked c pid ∷ es) ys = ap (λ r. c.argv ∷ r) (forks-append es ys)
forks-append (piped read write ∷ es) ys = forks-append es ys
forks-append (pipe_failed errno ∷ es) ys = forks-append es ys
forks-append (closed fid ∷ es) ys = forks-append es ys
forks-append (waited pid rval ∷ es) ys = forks-append es ys

abbrev pub argv_of : List Command → List (Option (List Text))
argv_of cs = map (λ c. c.argv) cs

-- Some of a list's entries, in the list's order.
pub data Sublist : List (Option (List Text)) → List (Option (List Text)) → Type 0 where
  empty : (xs : List (Option (List Text))) → Sublist [] xs
  leave :
      (x : Option (List Text)) (ys xs : List (Option (List Text)))
      → Sublist ys xs
      → Sublist ys (x ∷ xs)
  take_ :
      (x : Option (List Text)) (ys xs : List (Option (List Text)))
      → Sublist ys xs
      → Sublist (x ∷ ys) (x ∷ xs)

-- Every command has its words, and one that writes to a pipe has a successor.
abbrev pub IsChain : List Command → Type 0
IsChain [] = Unit {0}
IsChain (c ∷ rest) =
    (c.argv ≢ none) × (is_pipe c.output_mode ≡ true → is_last rest ≡ false) × IsChain rest

-- What joining a command to the next one by a pipe keeps.
record Joined (c : Command) (rest : List Command) (events : List Event) (p : Piping) : Type 0 where
  words : p.command.argv ≡ c.argv
  others : argv_of p.rest ≡ argv_of rest
  chain : IsChain p.rest
  forked : forks p.events ≡ forks events

make_pipe-forks :
    (os : System) (ends : ℕ × ℕ) (events : List Event)
    → forks (make_pipe os ends events).2 ≡ forks events
unfolding make_pipe forks
make_pipe-forks os ends events = go (os.pipe events) refl
  where
    go : (r : ℕ ⊎ (ℕ × ℕ)) → os.pipe events ≡ r → forks (make_pipe os ends events).2 ≡ forks events
    go (inl errno) e =
        let made : (make_pipe os ends events).2 ≡ events ++ pipe_failed errno ∷ [] =
          ground (arith, e) in
        ap forks made ∙ forks-append events (pipe_failed errno ∷ []) ∙ append-nil (forks events)
    go (inr ends') e =
        let made : (make_pipe os ends events).2 ≡ events ++ piped ends'.0 ends'.1 ∷ [] =
          ground (arith, e) in
        ap forks made ∙ forks-append events (piped ends'.0 ends'.1 ∷ []) ∙ append-nil (forks events)

attach_pipe-Joined :
    (status : ℕ) (c : Command) (rest : List Command) (ends : ℕ × ℕ) (events before : List Event)
    → is_last rest ≡ false
    → IsChain rest
    → forks events ≡ forks before
    → (p : Piping) × (attach_pipe status c rest ends events ≡ some p) × Joined c rest before p
unfolding attach_pipe set_input_fid set_output_fid
attach_pipe-Joined status c [] ends events before more_ chain f = cc
attach_pipe-Joined status c (next ∷ others) ends events before more_ chain f =
    (_, refl, record { words = refl; others = refl; chain = chain; forked = f })

pipe_commands-Joined :
    (os : System) (c : Command) (rest : List Command) (ends : ℕ × ℕ) (events : List Event)
    → IsChain (c ∷ rest)
    → (p : Piping) × (pipe_commands os c rest ends events ≡ some p) × Joined c rest events p
unfolding pipe_commands
pipe_commands-Joined os c rest ends events (words, next, chain) =
    elim (Bool-cases (is_pipe c.output_mode)) [
      | inr not_pipe ↦
          rw not_pipe
            (_, refl, record { words = refl; others = refl; chain = chain; forked = refl })
      | inl is ↦ rw is (elim (Bool-cases ((make_pipe os ends events).0 == 0)) [
        | inr failed ↦ rw failed (
          _,
          refl,
          record {
            words = refl;
            others = refl;
            chain = chain;
            forked = make_pipe-forks os ends events;
          },
        )
        | inl made ↦ rw made (
            attach_pipe-Joined _ c rest _ _ events (next is) chain (make_pipe-forks os ends events))
      ])
    ]

closed-forks :
    (b : Bool) (es : List Event) (fid : ℕ)
    → forks (if b then es ++ closed fid ∷ [] else es) ≡ forks es
unfolding forks
closed-forks true es fid = forks-append es (closed fid ∷ []) ∙ append-nil (forks es)
closed-forks false es fid = refl

waited-forks :
    (b : Bool) (es : List Event) (pid : ℕ) (rval : ℤ) (c d : Command)
    → let r : Command × List Event = if b then (c, es ++ waited pid rval ∷ []) else (d, es) in
      forks r.1 ≡ forks es
unfolding forks
waited-forks true es pid rval c d = forks-append es (waited pid rval ∷ []) ∙ append-nil (forks es)
waited-forks false es pid rval c d = refl

-- The parent's branch adds the command to those that were forked.
after_fork-forks :
    (os : System) (p : Piping) (pid : ℕ)
    → forks (after_fork os p pid).1 ≡ forks p.events ++ p.command.argv ∷ []
unfolding after_fork forks
after_fork-forks os p pid =
    waited-forks (is_wait_for_child p.command || is_last p.rest) _ pid _ _ _
    ∙ closed-forks (is_pipe p.command.output_mode) _ (p.ends.1)
    ∙ forks-append p.events (forked p.command pid ∷ [])

-- Leaving out the next command, or not.
kept-IsChain : (b : Bool) (cs : List Command) → IsChain cs → IsChain (if b then drop 1 cs else cs)
kept-IsChain true [] chain = tt
kept-IsChain true (c ∷ cs) chain = chain.2
kept-IsChain false cs chain = chain

kept_sublist :
    (b : Bool) (ys : List (Option (List Text))) (cs : List Command)
    → Sublist ys (argv_of (if b then drop 1 cs else cs))
    → Sublist ys (argv_of cs)
kept_sublist true ys [] s = s
kept_sublist true ys (c ∷ cs) s = leave c.argv ys (argv_of cs) s
kept_sublist false ys cs s = s

exit_known : (c : Command) → c.argv ≢ none → (b : Bool) × (is_command_exit c ≡ some b)
unfolding is_command_exit get_executable
exit_known c words = go c.argv refl
  where
    go : (a : Option (List Text)) → c.argv ≡ a → (b : Bool) × (is_command_exit c ≡ some b)
    go none e = absurd (words e)
    go (some []) e = (text_eq [] exit_command, ground (arith, e))
    go (some (w ∷ ws)) e = (text_eq w exit_command, ground (arith, e))

-- How the rounds go: they return, and what they have forked is a part of the chain, in order.
record Orderly (left : ℕ) (commands : List Command) (events : List Event) (ending : Ending)
    : Type 0 where
  status : ℕ
  stop : Bool
  calls : List Event
  ran : List (Option (List Text))
  ends : ending ≡ returned status stop calls
  forked : forks calls ≡ forks events ++ ran
  order : Sublist ran (argv_of commands)
  few : length ran ≤ left

module _ (os : System) (forking : (events : List Event) → os.fork events ≢ none) where
  execute_rounds-Orderly :
      (left : ℕ) (commands : List Command) (status : ℕ) (ends : ℕ × ℕ) (events : List Event)
      → IsChain commands
      → Orderly left commands events (execute_rounds os left commands status ends events)
  unfolding execute_rounds
  execute_rounds-Orderly zero commands status ends events chain = record {
    status = status;
    stop = false;
    calls = events;
    ran = [];
    ends = refl;
    forked = sym (append-nil (forks events));
    order = empty _;
    few = omega arith;
  }
  execute_rounds-Orderly (suc left) [] status ends events chain = record {
    status = status;
    stop = false;
    calls = events;
    ran = [];
    ends = refl;
    forked = sym (append-nil (forks events));
    order = empty _;
    few = omega arith;
  }
  execute_rounds-Orderly (suc left) (c ∷ rest) status ends events chain =
      let (stops, known) = exit_known c chain.0 in
      elim (Bool-cases stops) [
        | inl yes_ ↦ record {
          status = status;
          stop = true;
          calls = events;
          ran = [];
          ends = ground (arith, known, yes_);
          forked = sym (append-nil (forks events));
          order = empty _;
          few = omega arith;
        }
        | inr no_ ↦
            let (p, joined, j) = pipe_commands-Joined os c rest ends events chain in
            elim (Option-cases (os.fork p.events)) [
              | inl failed ↦ absurd (forking p.events failed)
              | inr (pid, started) ↦
                  let (c', events') = after_fork os p pid in
                  let b = is_skip_next_command c' in
                  let more_ =
                    execute_rounds-Orderly left (if b then drop 1 p.rest else p.rest)
                      (if is_pipe c.output_mode then p.status else status) p.ends events'
                      (kept-IsChain b p.rest j.chain) in
                  record {
                    status = more_.status;
                    stop = more_.stop;
                    calls = more_.calls;
                    ran = c.argv ∷ more_.ran;
                    ends = ground (arith, known, no_, joined, started, more_.ends);
                    forked =
                        more_.forked
                        ∙ ap (λ r. r ++ more_.ran)
                            (after_fork-forks os p pid
                              ∙ ap (λ r. r ++ p.command.argv ∷ []) j.forked)
                        ∙ append_assoc (forks events) (p.command.argv ∷ []) more_.ran
                        ∙ ap (λ w. forks events ++ w ∷ more_.ran) j.words;
                    order = take_ c.argv more_.ran (argv_of rest) (
                        subst (Sublist more_.ran) j.others
                          (kept_sublist b more_.ran p.rest more_.order));
                    few = omega (arith, more_.few);
                  }
            ]
      ]

  -- Where every command has its words, every pipe has a command on each side and processes can be
  -- forked, the executor returns: it reads through no NULL pointer. It forks at most 20 commands,
  -- each for one command of the chain, in the order of the chain.
  pub execute_command_list-IsOrderly :
      (ends : ℕ × ℕ) (events : List Event) (commands : List Command)
      → IsChain commands
      → (status : ℕ) × (stop : Bool) × (calls : List Event) × (ran : List (Option (List Text)))
        × (execute_command_list os ends events commands ≡ returned status stop calls)
        × (forks calls ≡ forks events ++ ran)
        × Sublist ran (argv_of commands)
        × (length ran ≤ 20)
  unfolding execute_command_list
  execute_command_list-IsOrderly ends events commands chain =
      let o = execute_rounds-Orderly 20 commands 0 ends events chain in
      (o.status, o.stop, o.calls, o.ran, o.ends, o.forked, o.order, o.few)
