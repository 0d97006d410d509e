-- ===== src/TaskList/Expiry.antt =====
-- When a task of src/ipc/tasks/list.c expires, told in nanoseconds, and the capacity of the list.
use dicey_rust.Prelude.{
  ℕ, ◌+◌, ◌*◌, ◌/◌, ◌%◌, ◌≤◌, ◌<◌, ◌≡◌, ◌≢◌, ◌⊎◌, ◌∷◌, [], refl, Bool, true, false, inl, inr,
  Bool-cases, Option, none, some, List, All, ltb, ◌==◌, ptrdiff_max, dec_lt, arith,
}
use dicey_rust.TaskList.{
  TaskEntry, Timespec, is_expired, is_wait_forever, timespec_is_before, grown_cap, expiry, now_plus,
  add_wrapping,
}

-- A time in nanoseconds.
abbrev pub nanoseconds : Timespec → ℕ
nanoseconds t = t.sec * 1000000000 + t.nsec

timespec_is_before_lem :
    (a b : Timespec)
    → a.nsec < 1000000000
    → b.nsec < 1000000000
    → timespec_is_before a b ≡ ltb (nanoseconds a) (nanoseconds b)
unfolding timespec_is_before
timespec_is_before_lem a b small small' = ground arith

is_wait_forever_lem : (t : Timespec) → is_wait_forever t ≡ (nanoseconds t == 0)
unfolding is_wait_forever
is_wait_forever_lem t = ground arith

module _ {ℓ} {A : Type ℓ} where
  -- The task waits forever, with the time 0, or its time has not passed.
  abbrev pub StillWaits : Timespec → TaskEntry A → Type 0
  StillWaits now e =
      (e.expires_at.nsec < 1000000000)
      × ((nanoseconds e.expires_at ≡ 0) ⊎ (nanoseconds now ≤ nanoseconds e.expires_at))

  is_expired-waits :
      (now : Timespec) (e : TaskEntry A)
      → now.nsec < 1000000000
      → StillWaits now e
      → is_expired now e ≡ false
  unfolding is_expired
  is_expired-waits now e clock (nsec, waits) =
      rw (is_wait_forever_lem e.expires_at, timespec_is_before_lem e.expires_at now nsec clock)
        (ground (arith, waits))

  pub is_expired-past :
      (now : Timespec) (e : TaskEntry A)
      → now.nsec < 1000000000
      → e.expires_at.nsec < 1000000000
      → 0 < nanoseconds e.expires_at
      → nanoseconds e.expires_at < nanoseconds now
      → is_expired now e ≡ true
  unfolding is_expired
  is_expired-past now e clock nsec set past =
      rw (is_wait_forever_lem e.expires_at, timespec_is_before_lem e.expires_at now nsec clock)
        (ground arith)

  pub still_waits :
      (now : Timespec) (es : List (TaskEntry A))
      → now.nsec < 1000000000
      → All (StillWaits now) es
      → All (λ e. is_expired now e ≡ false) es
  still_waits now [] clock h = tt
  still_waits now (e ∷ es) clock h =
      (is_expired-waits now e clock h.0, still_waits now es clock h.1)

-- The time for a delay in milliseconds, one second short if the nanoseconds make a second or more.
abbrev pub IsLater : Timespec → ℕ → Timespec → Type 0
IsLater now ms t =
    ((now.nsec + ms % 1000 * 1000000 < 1000000000)
      × (nanoseconds t ≡ nanoseconds now + ms * 1000000))
    ⊎ ((1000000000 ≤ now.nsec + ms % 1000 * 1000000)
        × (nanoseconds t + 1000000000 ≡ nanoseconds now + ms * 1000000))

-- The time for a delay, which is 0 for WAIT_FOREVER.
abbrev pub IsDue : Timespec → Option ℕ → Timespec → Type 0
IsDue now none t = nanoseconds t ≡ 0
IsDue now (some ms) t = IsLater now ms t

pub now_plus-IsLater :
    (now : Timespec) (ms : ℕ) → now.nsec < 1000000000 → IsLater now ms (now_plus now ms)
unfolding now_plus add_wrapping
now_plus-IsLater now ms small = elim (dec_lt (now.nsec + ms % 1000 * 1000000) 1000000000) [
  | yes few ↦ inl (few, omega arith)
  | no many ↦ inr (omega arith, omega arith)
]

pub expiry-IsDue :
    (now : Timespec) (delay : Option ℕ) → now.nsec < 1000000000 → IsDue now delay (expiry now delay)
unfolding expiry
expiry-IsDue now none clock = refl
expiry-IsDue now (some ms) clock = now_plus-IsLater now ms clock

-- The block has room for one more entry.
pub grown_cap_lem :
    (realloc : ℕ → Bool) (len cap : ℕ)
    → len ≤ cap
    → len ≤ ptrdiff_max
    → cap ≢ 1
    → cap * 3 < 18446744073709551616
    → ((n : ℕ) → realloc n ≡ true)
    → (room : ℕ) × (grown_cap realloc len cap ≡ some room) × (len < room)
unfolding grown_cap
grown_cap_lem realloc len cap fits few odd small plenty = elim (dec_lt len cap) [
  | yes lt ↦ (cap, ground arith, lt)
  | no ge ↦ elim (Bool-cases (cap == 0)) [
    | inl e ↦ (128, ground (arith, plenty 128), ground arith)
    | inr e ↦
        let new_cap = cap * 3 % 18446744073709551616 / 2 in
        (new_cap, ground (arith, plenty new_cap), ground arith)
  ]
]
