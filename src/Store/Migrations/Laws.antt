-- ===== src/Store/Migrations/Laws.antt =====
-- internal/store/store.go: which migrations a run of RunMigrations applies.
use mathlib.Core.List.{append-nil, append_assoc}
-- The migrations that are still to do where those of `seen` are done, each version once.
use pingachock.Base.{
  sort_by, ==_refl, All, arith, inr, ap, inl, sym, ◌∙◌, if◌then◌else◌, Bool-cases, refl, none, true,
  false, map, some, ◌++◌, ◌≡◌, [], member, ◌∷◌, Option, ℕ, List, Bytes,
}
use pingachock.Store.Migrations.{
  apply_dir, run_migrations, find_migrations, Entry, not_checked, not_read, apply, apply_body,
  apply_all, go_on, not_applied, step, version_of, Failure, Run, apply_one, Migration, Schema,
}
use pingachock.Store.Db.{later_faults, next_fault}

pub todo : List ℕ → List Migration → List Migration
todo seen [] = []
todo seen (m ∷ ms) =
    let later = todo (seen ++ (m.version ∷ [])) ms in
    let skipped = todo seen ms in if member m.version seen then skipped else m ∷ later

module _ {S : Type 0} (exec : Bytes → S → Option S) where
  -- The bodies of `ms` lead, one after the other, from `t` to `u`.
  pub data Executes (u : S) : S → List Migration → Type 0 where
    stop : Executes u u []
    next :
        {t v : S} {m : Migration} {ms : List Migration} (b : Bytes)
        → m.body ≡ some b
        → exec b t ≡ some v
        → Executes u v ms
        → Executes u t (m ∷ ms)

  -- A run from `s` has done the first of the migrations to do, all of them where it gives no error.
  pub record IsProgress (s : Schema S) (ms : List Migration) (r : Run S) : Type 0 where
    pub finished : List Migration
    pub left : List Migration
    pub splits : todo s.applied ms ≡ finished ++ left
    pub noted : r.1.applied ≡ s.applied ++ map version_of finished
    pub executed : Executes r.1.tables s.tables finished
    pub complete : r.0 ≡ none → left ≡ []

  -- What one round does.
  pub data Applies (s : Schema S) (m : Migration) : Run S → Type 0 where
    failed_now :
        (e : Failure) (s' : Schema S)
        → s'.applied ≡ s.applied
        → s'.tables ≡ s.tables
        → Applies s m (some e, s')
    was_done :
        (s' : Schema S)
        → member m.version s.applied ≡ true
        → s'.applied ≡ s.applied
        → s'.tables ≡ s.tables
        → Applies s m (none, s')
    was_new :
        (b : Bytes) (s' : Schema S)
        → member m.version s.applied ≡ false
        → m.body ≡ some b
        → exec b s.tables ≡ some s'.tables
        → s'.applied ≡ s.applied ++ (m.version ∷ [])
        → Applies s m (none, s')

  apply_one-Applies :
      (m : Migration) (b : Bytes) (s : Schema S) (o : Option S)
      → member m.version s.applied ≡ false
      → m.body ≡ some b
      → exec b s.tables ≡ o
      → Applies s m (apply_one exec m.version o (step exec s))
  unfolding apply_one
  apply_one-Applies m b s none n e x = failed_now not_applied _ refl refl
  apply_one-Applies m b s (some t) n e x = elim (Bool-cases (next_fault (later_faults s.failing))) [
    | inl bad ↦ rw bad (failed_now not_applied _ refl refl)
    | inr good ↦ rw good (was_new b _ n e x refl)
  ]

  apply_body-Applies :
      (m : Migration) (o : Option Bytes) (s : Schema S)
      → member m.version s.applied ≡ false
      → m.body ≡ o
      → Applies s m (apply_body exec m.version o (step exec s))
  unfolding apply_body
  apply_body-Applies m none s n e = failed_now not_read _ refl refl
  apply_body-Applies m (some b) s n e = apply_one-Applies m b s (exec b s.tables) n e refl

  apply-Applies : (m : Migration) (s : Schema S) → Applies s m (apply exec m s)
  unfolding apply
  apply-Applies m s = elim (Bool-cases (next_fault s.failing)) [
    | inl bad ↦ rw bad (failed_now not_checked _ refl refl)
    | inr good ↦ elim (Bool-cases (member m.version s.applied)) [
      | inl known ↦ rw (good, known) (was_done _ known refl refl)
      | inr new ↦ rw (good, new) (apply_body-Applies m m.body s new refl)
    ]
  ]

  go_on-IsProgress :
      (m : Migration) (ms : List Migration) (s : Schema S) (r : Run S) (k : Schema S → Run S)
      → Applies s m r
      → ((s' : Schema S) → IsProgress s' ms (k s'))
      → IsProgress s (m ∷ ms) (go_on exec r k)
  unfolding todo
  go_on-IsProgress m ms s (some e, s') k (failed_now _ _ a t) h = record {
    finished = [];
    left = todo s.applied (m ∷ ms);
    splits = refl;
    noted = a ∙ sym (append-nil s.applied);
    executed = rw t stop;
    complete = λ x. absurd cc;
  }
  go_on-IsProgress m ms s (none, s') k (was_done _ known a t) h = record {
    finished = (h s').finished;
    left = (h s').left;
    splits = rw known (rw (← a) (h s').splits);
    noted = rw (← a) (h s').noted;
    executed = rw (← t) (h s').executed;
    complete = (h s').complete;
  }
  go_on-IsProgress m ms s (none, s') k (was_new b _ n e x a) h = record {
    finished = m ∷ (h s').finished;
    left = (h s').left;
    splits = rw n (ap (λ l. m ∷ l) (rw (← a) (h s').splits));
    noted = (h s').noted ∙ (rw a (append_assoc s.applied (m.version ∷ []) _));
    executed = next b e x (h s').executed;
    complete = (h s').complete;
  }

  apply_all-IsProgress :
      (ms : List Migration) (s : Schema S) → IsProgress s ms (apply_all exec ms s)
  unfolding apply_all todo
  apply_all-IsProgress [] s = record {
    finished = [];
    left = [];
    splits = refl;
    noted = sym (append-nil s.applied);
    executed = stop;
    complete = λ _. refl;
  }
  apply_all-IsProgress (m ∷ ms) s =
      go_on-IsProgress m ms s (apply exec m s) (apply_all exec ms) (apply-Applies m s)
        (apply_all-IsProgress ms)

abbrev IsIn : List ℕ → Migration → Type 0
IsIn vs m = member m.version vs ≡ true

member-left : (v : ℕ) (xs ys : List ℕ) → member v xs ≡ true → member v (xs ++ ys) ≡ true
member-left v [] ys h = absurd cc
member-left v (x ∷ xs) ys h = ground (arith, member-left v xs ys)

member-right : (v : ℕ) (xs ys : List ℕ) → member v ys ≡ true → member v (xs ++ ys) ≡ true
member-right v [] ys h = h
member-right v (x ∷ xs) ys h = ground (arith, member-right v xs ys h)

todo-known :
    (seen : List ℕ) (m : Migration) (ms : List Migration)
    → member m.version seen ≡ true
    → todo seen (m ∷ ms) ≡ todo seen ms
unfolding todo
todo-known seen m ms h = rw h refl

todo-new :
    (seen : List ℕ) (m : Migration) (ms : List Migration)
    → member m.version seen ≡ false
    → todo seen (m ∷ ms) ≡ m ∷ todo (seen ++ (m.version ∷ [])) ms
unfolding todo
todo-new seen m ms h = rw h refl

todo_whole :
    (vs seen : List ℕ) (ms : List Migration)
    → vs ≡ seen ++ map version_of (todo seen ms)
    → All (IsIn vs) ms
todo_whole vs seen [] e = tt
todo_whole vs seen (m ∷ ms) e = elim (Bool-cases (member m.version seen)) [
  | inl known ↦ (
    rw e (member-left m.version seen _ known),
    todo_whole vs seen ms (e ∙ ap (λ l. seen ++ map version_of l) (todo-known seen m ms known)),
  )
  | inr new ↦
      let e' : vs ≡ seen ++ (m.version ∷ map version_of (todo (seen ++ (m.version ∷ [])) ms)) =
        e ∙ ap (λ l. seen ++ map version_of l) (todo-new seen m ms new) in
      (
        rw e' (member-right m.version seen _ (ground (arith, ==_refl m.version))),
        todo_whole vs (seen ++ (m.version ∷ [])) ms
            (e' ∙ sym (append_assoc seen (m.version ∷ []) _)),
      )
]

todo-none : (seen : List ℕ) (ms : List Migration) → All (IsIn seen) ms → todo seen ms ≡ []
unfolding todo
todo-none seen [] h = refl
todo-none seen (m ∷ ms) h = rw h.0 (todo-none seen ms h.1)

module _ {S : Type 0} (exec : Bytes → S → Option S) where
  restarted :
      (s : Schema S) (ms : List Migration) (r : Run S)
      → IsProgress exec (step exec s) ms r
      → IsProgress exec s ms r
  restarted s ms r p = record {
    finished = p.finished;
    left = p.left;
    splits = p.splits;
    noted = p.noted;
    executed = p.executed;
    complete = p.complete;
  }

  noted_whole :
      (s : Schema S) (ms : List Migration) (r : Run S)
      → IsProgress exec s ms r
      → r.0 ≡ none
      → All (IsIn r.1.applied) ms
  noted_whole s ms r p h =
      let e : todo s.applied ms ≡ p.finished =
        p.splits ∙ ap (λ l. p.finished ++ l) (p.complete h) ∙ append-nil p.finished in
      todo_whole r.1.applied s.applied ms
        (p.noted ∙ ap (λ l. s.applied ++ map version_of l) (sym e))

  unchanged_without : (t u : S) (ms : List Migration) → ms ≡ [] → Executes exec u t ms → u ≡ t
  unchanged_without t u [] e stop = refl
  unchanged_without t u (m ∷ ms) e (next b _ _ _) = absurd cc

  append-nil_left : (xs ys : List Migration) → [] ≡ xs ++ ys → xs ≡ []
  append-nil_left [] ys e = refl
  append-nil_left (x ∷ xs) ys e = absurd cc

  unchanged :
      (s : Schema S) (ms : List Migration) (r : Run S)
      → All (IsIn s.applied) ms
      → IsProgress exec s ms r
      → (r.1.tables ≡ s.tables) × (r.1.applied ≡ s.applied)
  unchanged s ms r h p =
      let e : p.finished ≡ [] =
        append-nil_left p.finished p.left (rw (todo-none s.applied ms h) at p.splits) in
      (
        unchanged_without s.tables r.1.tables p.finished e p.executed,
        p.noted ∙ (rw e (append-nil s.applied)),
      )

module _ {S : Type 0} (exec : Bytes → S → Option S) (parse_int : Bytes → Option ℕ) (es : List Entry)
    (ms : List Migration) (found : find_migrations parse_int es ≡ some ms) where
  -- A run of RunMigrations, however it ends, has applied migrations in the order of their versions: the
  -- first of those that were still to do, each version once, and all of them where it gives no error.
  pub run_migrations-IsProgress :
      (s : Schema S)
      → IsProgress exec s (sort_by version_of ms) (run_migrations exec parse_int (some es) s)
  unfolding run_migrations apply_dir
  run_migrations-IsProgress s = elim (Bool-cases (next_fault s.failing)) [
    | inl bad ↦ rw bad (record {
      finished = [];
      left = todo s.applied (sort_by version_of ms);
      splits = refl;
      noted = sym (append-nil s.applied);
      executed = stop;
      complete = λ x. absurd cc;
    })
    | inr good ↦
        rw (good, found)
          (restarted exec s (sort_by version_of ms) _
            (apply_all-IsProgress exec (sort_by version_of ms) (step exec s)))
  ]

  -- After a run that gives no error a further run changes neither the tables nor the versions.
  pub run_migrations_again :
      (s : Schema S)
      → let (e, s') = run_migrations exec parse_int (some es) s in
        e ≡ none
        → let (_, s'') = run_migrations exec parse_int (some es) s' in
          (s''.tables ≡ s'.tables) × (s''.applied ≡ s'.applied)
  run_migrations_again s h =
      unchanged exec _ (sort_by version_of ms) _
        (noted_whole exec s (sort_by version_of ms) _ (run_migrations-IsProgress s) h)
        (run_migrations-IsProgress _)
