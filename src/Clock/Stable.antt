-- ===== src/Clock/Stable.antt =====
-- `read_rtc` (src/clock.c): its loop until two rounds agree, and the local time that it ends with.
use os_2024_ususbuntu_with_s.Prelude.{
  ℕ, zero, suc, ◌+◌, ◌<◌, ◌≤◌, ◌≡◌, refl, sym, ap, ◌∙◌, true, false, some, Bool-cases, inl, inr,
  arith, subst, ℕ_discrete,
}
use os_2024_ususbuntu_with_s.Clock.{
  Sample, current_year, is_same, stable_loop, is_binary, is_24_hour, to_binary, to_24_hour,
  full_year, adjust, read_rtc,
}
use os_2024_ususbuntu_with_s.Clock.Calendar.{IsTime, IsLater, registers, decoded, adjust-IsLater}

is_same-eq : (a b : Sample) → is_same a b ≡ true → a ≡ b
unfolding is_same
is_same-eq a b h = ground arith

is_same_self : (a : Sample) → is_same a a ≡ true
unfolding is_same
is_same_self a = ground arith

later_round :
    (device : ℕ → Sample) (n k : ℕ)
    → n ≤ k
    → device k ≡ device (k + 1)
    → is_same (device n) (device (n + 1)) ≡ false
    → n + 1 ≤ k
later_round device n k lo e s = elim (ℕ_discrete n k) [
  | yes eq ↦
      let h : device n ≡ device (n + 1) = subst (λ x. device x ≡ device (x + 1)) (sym eq) e in
      cc (is_same_self (device n), ap (λ x. is_same (device n) x) h, s)
  | no ne ↦ omega arith
]

-- What the loop ends with: a round of reads that agrees with the one before it.
pub record IsStable (device : ℕ → Sample) (n k : ℕ) (t : Sample) : Type 0 where
  pub round : ℕ
  pub late : n ≤ round
  pub soon : round ≤ k
  pub once : device round ≡ t
  pub again : device (round + 1) ≡ t

-- When the device gives two equal readings in a row before the rounds run out, the loop ends, with
-- readings that were equal in a row not later than those.
pub stable_loop-IsStable :
    (fuel : ℕ) (device : ℕ → Sample) (n k : ℕ)
    → n ≤ k
    → k < n + fuel
    → device k ≡ device (k + 1)
    → (t : Sample) × (stable_loop fuel device n ≡ some t) × IsStable device n k t
unfolding stable_loop
stable_loop-IsStable zero device n k lo hi e = absurd (omega arith)
stable_loop-IsStable (suc fuel) device n k lo hi e =
    elim (Bool-cases (is_same (device n) (device (n + 1)))) [
      | inl s ↦ (
        device (n + 1),
        rw (s, stable_loop) refl,
        record {
          round = n;
          late = omega arith;
          soon = lo;
          once = is_same-eq (device n) (device (n + 1)) s;
          again = refl;
        },
      )
      | inr s ↦
          let later : n + 1 ≤ k = later_round device n k lo e s in
          let (t, found, st) = stable_loop-IsStable fuel device (n + 1) k later (omega arith) e in
          (
            t,
            rw (s, stable_loop) found,
            record {
              round = st.round;
              late = omega (arith, st.late);
              soon = st.soon;
              once = st.once;
              again = st.again;
            },
          )
    ]

-- For a clock with binary coded decimals and 24 hours, in the years from the current one to 2099,
-- whose two equal readings in a row are those of a calendar time, and with enough rounds for two
-- equal readings, read_rtc ends with the calendar time 7 hours later.
pub read_rtc-IsLater :
    (fuel : ℕ) (device : ℕ → Sample) (k register_b : ℕ) (t : Sample)
    → k < fuel
    → IsTime t
    → current_year ≤ t.year
    → t.year < 2100
    → is_binary register_b ≡ false
    → is_24_hour register_b ≡ true
    → ((n : ℕ) → n ≤ k → device n ≡ device (n + 1) → device n ≡ registers t)
    → device k ≡ device (k + 1)
    → (u : Sample) × (read_rtc fuel device register_b ≡ some u) × IsLater 7 t u
unfolding read_rtc
read_rtc-IsLater fuel device k b t enough v lo hi e f agree stable =
    let (s, found, st) = stable_loop-IsStable fuel device 0 k (omega arith) (omega arith) stable in
    let same : s ≡ registers t = sym st.once ∙ agree st.round st.soon (st.once ∙ sym st.again) in
    let full : full_year (to_24_hour b (to_binary b s)) ≡ t =
      ap (λ x. full_year (to_24_hour b (to_binary b x))) same ∙ decoded t b v lo hi e f in
    (
      adjust t,
      rw (read_rtc, found) (ap (λ x. some (adjust x)) full),
      adjust-IsLater t v (omega arith),
    )
