-- ===== src/Port/Mutex.antt =====
-- The flag of a `Mutex` against its holder.
use compaction_test.Base.{
  ℕ, ◌<◌, ◌+◌, ◌*◌, Option, none, some, Bool, true, false, ◌==◌, Bool-cases, inl, inr, ◌⊎◌, ◌≡◌,
  ◌≢◌, ◌↔◌, refl, sym, ap, ◌∙◌, arith,
}
use compaction_test.Port.{
  Place, outside, acquired, holding, leaving, falling_asleep, asleep, put_place, System,
  assert_held, to_timespec, Step, lock_takes, sets, unlock_clears, unlock_gives, wait_clears,
  wait_gives, wait_takes, Steps, start, step, new_mutex,
}

abbrev owning : Place → Bool
owning outside = false
owning asleep = false
owning _ = true

some_same : {i j : ℕ} → some i ≡ some j → i ≡ j
some_same h = ground (arith, h)

-- The place of a thread after one thread moved.
moved :
    (t i : ℕ) (p : Place) (places : ℕ → Place)
    → ((i ≡ t) × (put_place t p places i ≡ p)) ⊎ ((i ≢ t) × (put_place t p places i ≡ places i))
moved t i p places = elim (Bool-cases (i == t)) [
  | inl e ↦ inl (ground (arith, e), simp e)
  | inr e ↦ inr ((λ h. absurd (ground (arith, e, h))), simp e)
]

module _ (M : Type 0) (owner : M → Option ℕ) where
  record Inv (s : System M) : Type 0 where
    mine : (i : ℕ) → owning (s.places i) ≡ true → owner s.mutex ≡ some i
    set : (i : ℕ) → s.places i ≡ holding → s.locked ≡ true
    held : s.locked ≡ true → (i : ℕ) × (s.places i ≡ holding)

  -- A thread takes the mutex.
  taken :
      (m m2 : M) (locked : Bool) (places : ℕ → Place) (t : ℕ)
      → Inv (record { mutex = m; locked = locked; places = places })
      → owner m ≡ none
      → owner m2 ≡ some t
      → places t ≢ holding
      → Inv (record { mutex = m2; locked = locked; places = put_place t acquired places })
  taken m m2 locked places t inv free now other = record {
    mine = λ i h. elim (moved t i acquired places) [
      | inl (e, f) ↦ now ∙ ap some (sym e)
      | inr (n, f) ↦ absurd (cc (inv.mine i (ap owning (sym f) ∙ h), free))
    ];
    set = λ i h. elim (moved t i acquired places) [
      | inl (e, f) ↦ absurd (ground (arith, sym f ∙ h))
      | inr (n, f) ↦ inv.set i (sym f ∙ h)
    ];
    held = λ h.
        let (i, e) = inv.held h in
        elim (moved t i acquired places) [
          | inl (s, f) ↦ absurd (other (ap places (sym s) ∙ e))
          | inr (n, f) ↦ (i, f ∙ e)
        ];
  }

  -- A thread whose flag is cleared gives the mutex back.
  given :
      (m m2 : M) (locked : Bool) (places : ℕ → Place) (t : ℕ) (q : Place)
      → Inv (record { mutex = m; locked = locked; places = places })
      → owning (places t) ≡ true
      → places t ≢ holding
      → owning q ≡ false
      → Inv (record { mutex = m2; locked = locked; places = put_place t q places })
  given m m2 locked places t q inv own other q_free = record {
    mine = λ i h. elim (moved t i q places) [
      | inl (e, f) ↦ absurd (ground (arith, sym (ap owning f ∙ q_free) ∙ h))
      | inr (n, f) ↦
          absurd (n (some_same (sym (inv.mine i (ap owning (sym f) ∙ h)) ∙ inv.mine t own)))
    ];
    set = λ i h. elim (moved t i q places) [
      | inl (e, f) ↦ absurd (ground (arith, sym (ap owning (sym f ∙ h)) ∙ q_free))
      | inr (n, f) ↦ inv.set i (sym f ∙ h)
    ];
    held = λ h.
        let (i, e) = inv.held h in
        elim (moved t i q places) [
          | inl (s, f) ↦ absurd (other (ap places (sym s) ∙ e))
          | inr (n, f) ↦ (i, f ∙ e)
        ];
  }

  -- The holder of the mutex sets the flag, or clears it.
  flag_set :
      (m : M) (locked : Bool) (places : ℕ → Place) (t : ℕ)
      → Inv (record { mutex = m; locked = locked; places = places })
      → owning (places t) ≡ true
      → Inv (record { mutex = m; locked = true; places = put_place t holding places })
  flag_set m locked places t inv own = record {
    mine = λ i h. elim (moved t i holding places) [
      | inl (e, f) ↦ inv.mine t own ∙ ap some (sym e)
      | inr (n, f) ↦ inv.mine i (ap owning (sym f) ∙ h)
    ];
    set = λ i h. refl;
    held =
        λ h. (t, elim (moved t t holding places) [ inl (e, f) ↦ f | inr (n, f) ↦ absurd (n refl) ]);
  }

  flag_cleared :
      (m : M) (locked : Bool) (places : ℕ → Place) (t : ℕ) (q : Place)
      → Inv (record { mutex = m; locked = locked; places = places })
      → owning (places t) ≡ true
      → q ≢ holding
      → Inv (record { mutex = m; locked = false; places = put_place t q places })
  flag_cleared m locked places t q inv own other = record {
    mine = λ i h. elim (moved t i q places) [
      | inl (e, f) ↦ inv.mine t own ∙ ap some (sym e)
      | inr (n, f) ↦ inv.mine i (ap owning (sym f) ∙ h)
    ];
    set = λ i h. elim (moved t i q places) [
      | inl (e, f) ↦ absurd (other (sym f ∙ h))
      | inr (n, f) ↦
          absurd (n (some_same (sym (inv.mine i (ap owning (sym f ∙ h))) ∙ inv.mine t own)))
    ];
    held = λ h. absurd (ground (arith, h));
  }

module _ (M : Type 0) (Takes Gives : M → ℕ → M → Type 0) (owner : M → Option ℕ)
    (takes_lem : (m : M) (t : ℕ) (m2 : M)
      → Takes m t m2
      → (owner m ≡ none) × (owner m2 ≡ some t)) where
  Step-Inv : (s s2 : System M) → Inv M owner s → Step M Takes Gives s s2 → Inv M owner s2
  Step-Inv s s2 inv (lock_takes {m} {m2} {locked} {places} t e h) =
      let (free, now) = takes_lem m t m2 h in
      taken M owner m m2 locked places t inv free now (λ f. absurd (ground (arith, sym e ∙ f)))
  Step-Inv s s2 inv (sets {m} {locked} {places} t e) =
      flag_set M owner m locked places t inv (ap owning e)
  Step-Inv s s2 inv (unlock_clears {m} {locked} {places} t e) =
      flag_cleared M owner m locked places t leaving inv (ap owning e)
        (λ f. absurd (ground (arith, f)))
  Step-Inv s s2 inv (unlock_gives {m} {m2} {locked} {places} t e h) =
      given M owner m m2 locked places t outside inv (ap owning e)
        (λ f. absurd (ground (arith, sym e ∙ f))) refl
  Step-Inv s s2 inv (wait_clears {m} {locked} {places} t e) =
      flag_cleared M owner m locked places t falling_asleep inv (ap owning e)
        (λ f. absurd (ground (arith, f)))
  Step-Inv s s2 inv (wait_gives {m} {m2} {locked} {places} t e h) =
      given M owner m m2 locked places t asleep inv (ap owning e)
        (λ f. absurd (ground (arith, sym e ∙ f))) refl
  Step-Inv s s2 inv (wait_takes {m} {m2} {locked} {places} t e h) =
      let (free, now) = takes_lem m t m2 h in
      taken M owner m m2 locked places t inv free now (λ f. absurd (ground (arith, sym e ∙ f)))

  new-Inv : (m : M) → Inv M owner (new_mutex M Takes Gives m)
  unfolding new_mutex
  new-Inv m = record {
    mine = λ i h. absurd (ground (arith, h));
    set = λ i h. absurd (ground (arith, h));
    held = λ h. absurd (ground (arith, h));
  }

  Steps-Inv : (s s2 : System M) → Inv M owner s → Steps M Takes Gives s s2 → Inv M owner s2
  Steps-Inv s s2 inv start = inv
  Steps-Inv s s2 inv (step before last) = Step-Inv _ _ (Steps-Inv _ _ inv before) last

  -- In every state that a new mutex comes to, `AssertHeld` passes exactly when some thread is between
  -- the return of `Lock` or `Wait` and the next `Unlock` or `Wait`. The library gives the mutex to a
  -- thread only when none has it.
  pub assert_held_iff :
      (m : M) (s : System M)
      → Steps M Takes Gives (new_mutex M Takes Gives m) s
      → (assert_held s ≡ true) ↔ ((i : ℕ) × (s.places i ≡ holding))
  unfolding assert_held
  assert_held_iff m s run =
      let inv = Steps-Inv _ _ (new-Inv m) run in ((λ h. inv.held h), (λ (i, e). inv.set i e))

  -- Two threads that are both there are the same thread.
  pub one_holder :
      (m : M) (s : System M) (i j : ℕ)
      → Steps M Takes Gives (new_mutex M Takes Gives m) s
      → s.places i ≡ holding
      → s.places j ≡ holding
      → i ≡ j
  one_holder m s i j run p q =
      let inv = Steps-Inv _ _ (new-Inv m) run in
      some_same (sym (inv.mine i (ap owning p)) ∙ inv.mine j (ap owning q))

-- `TimedWait` hands the library the same time, with less than a second in nanoseconds.
pub to_timespec_lem :
    (abs_time_us : ℕ)
    → ((to_timespec abs_time_us).1 < 1000000000)
      × ((to_timespec abs_time_us).0 * 1000000000 + (to_timespec abs_time_us).1
          ≡ abs_time_us * 1000)
unfolding to_timespec
to_timespec_lem abs_time_us = (omega arith, omega arith)
