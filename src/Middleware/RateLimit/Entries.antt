-- ===== src/Middleware/RateLimit/Entries.antt =====
-- The store of the limiter in memory as a map: `put_entry`, `cleanup` and lookups.
use kakao_relay.Prelude.{
  ℕ, sym, ◌+◌, ◌-◌, ◌≤◌, ◌<◌, Str, str_eq, str_eq_iff, Bool, false, not, Option, none, some, List,
  [], ◌∷◌, ltb, if◌then◌else◌, length, select, ◌≡◌, refl, arith, All, ◌⊎◌, inl, inr, Bool-cases,
  select-none, length-select-le, ltb→lt,
}
use kakao_relay.Middleware.Window.{is_live, live}
use kakao_relay.Middleware.RateLimit.{
  RateLimitEntry, Store, RateLimiter, entry_of, put_entry, is_idle, cleanup_interval, evict,
  cleanup, max_entries, entry_ttl, window_duration, timestamps_of,
}

pub entry-put :
    (id j : Str) (e : RateLimitEntry) (s : Store)
    → entry_of j (put_entry id e s) ≡ (if str_eq id j then some e else entry_of j s)
unfolding entry_of put_entry
entry-put id j e [] = refl
entry-put id j e ((k, old) ∷ rest) =
    ground (arith, str_eq_iff k id, str_eq_iff k j, str_eq_iff id j, entry-put id j e rest)

-- No key stands twice.
abbrev pub Unique : Store → Type 0
Unique [] = Unit
Unique ((k, e) ∷ rest) = (entry_of k rest ≡ none) × Unique rest

pub put-Unique : (id : Str) (e : RateLimitEntry) (s : Store) → Unique s → Unique (put_entry id e s)
unfolding entry_of put_entry
put-Unique id e [] u = (refl, tt)
put-Unique id e ((k, old) ∷ rest) (fresh, u) = elim (Bool-cases (str_eq k id)) [
  | inl same ↦ rw same (fresh, u)
  | inr other ↦ rw other (
    ground (arith, entry-put id k e rest, str_eq_iff id k, str_eq_iff k id),
    put-Unique id e rest u,
  )
]

-- What the removal of idle entries leaves of a lookup.
abbrev pub unless_idle : ℕ → Option RateLimitEntry → Option RateLimitEntry
unless_idle now none = none
unless_idle now (some e) = if ltb entry_ttl (now - e.last_access) then none else some e

abbrev busy : ℕ → Str × RateLimitEntry → Bool
busy now p = not (is_idle now p)

entry-select-busy :
    (now : ℕ) (id : Str) (s : Store)
    → Unique s
    → entry_of id (select (busy now) s) ≡ unless_idle now (entry_of id s)
unfolding entry_of select
entry-select-busy now id [] u = refl
entry-select-busy now id ((k, e) ∷ rest) (fresh, u) =
    ground (arith, str_eq_iff k id, entry-select-busy now id rest u, entry-select-busy now k rest u)

select-busy-Unique : (now : ℕ) (s : Store) → Unique s → Unique (select (busy now) s)
unfolding select
select-busy-Unique now [] u = tt
select-busy-Unique now ((k, e) ∷ rest) (fresh, u) =
    elim (Bool-cases (ltb entry_ttl (now - e.last_access))) [
      | inl idle ↦ rw idle (select-busy-Unique now rest u)
      | inr used ↦
          rw used (ground (arith, entry-select-busy now k rest u), select-busy-Unique now rest u)
    ]

evict-small : (s : Store) → length s ≤ max_entries → evict s ≡ s
evict-small s h = ground arith

pub length-put :
    (id : Str) (e : RateLimitEntry) (s : Store) → length (put_entry id e s) ≤ length s + 1
unfolding put_entry
length-put id e [] = omega arith
length-put id e ((k, old) ∷ rest) = ground (arith, length-put id e rest)

module _ (now : ℕ) (rl : RateLimiter) (small : length rl.store ≤ max_entries) where
  evict-busy : evict (select (busy now) rl.store) ≡ select (busy now) rl.store
  evict-busy =
      evict-small (select (busy now) rl.store) (omega (arith, length-select-le (busy now) rl.store))

  cleanup-store :
      ((cleanup now rl).store ≡ rl.store) ⊎ ((cleanup now rl).store ≡ select (busy now) rl.store)
  unfolding cleanup
  cleanup-store = elim (Bool-cases (ltb (now - rl.last_cleanup) cleanup_interval)) [
    | inl early ↦ inl (rw early)
    | inr due ↦ inr (rw due evict-busy)
  ]

  pub cleanup-Unique : Unique rl.store → Unique (cleanup now rl).store
  cleanup-Unique u = elim cleanup-store [
    | inl same ↦ rw same u
    | inr swept ↦ rw swept (select-busy-Unique now rl.store u)
  ]

  pub length-cleanup : length (cleanup now rl).store ≤ length rl.store
  length-cleanup = elim cleanup-store [
    | inl same ↦ rw same (omega arith)
    | inr swept ↦ rw swept (length-select-le (busy now) rl.store)
  ]

  pub entry-cleanup :
      (id : Str)
      → Unique rl.store
      → (entry_of id (cleanup now rl).store ≡ entry_of id rl.store)
        ⊎ (entry_of id (cleanup now rl).store ≡ unless_idle now (entry_of id rl.store))
  entry-cleanup id u = elim cleanup-store [
    | inl same ↦ inl (rw same)
    | inr swept ↦ inr (rw swept (entry-select-busy now id rl.store u))
  ]

-- Timestamps are at most the last access, as `check` leaves them.
abbrev pub IsRecent : ℕ → Option RateLimitEntry → Type 0
IsRecent now none = Unit
IsRecent now (some e) = All (λ t. t ≤ e.last_access) e.timestamps × (e.last_access ≤ now)

idle-dead :
    (now t : ℕ) (ts : List ℕ) (last : ℕ)
    → entry_ttl < now - last
    → now ≤ t
    → All (λ x. x ≤ last) ts
    → All (λ x. is_live window_duration t x ≡ false) ts
idle-dead now t [] last idle later h = tt
idle-dead now t (x ∷ xs) last idle later (h, hs) =
    (ground arith, idle-dead now t xs last idle later hs)

-- Removing an entry that was idle for the time to live loses nothing of any later window.
pub live-unless_idle :
    (now t : ℕ) (o : Option RateLimitEntry)
    → now ≤ t
    → IsRecent now o
    → live window_duration t (timestamps_of (unless_idle now o))
      ≡ live window_duration t (timestamps_of o)
unfolding live select
live-unless_idle now t none later h = refl
live-unless_idle now t (some e) later (h, past) =
    elim (Bool-cases (ltb entry_ttl (now - e.last_access))) [
      | inl idle ↦ rw idle (
          sym (
            select-none (is_live window_duration t) e.timestamps
              (idle-dead now t e.timestamps e.last_access (ltb→lt _ _ idle) later h)))
      | inr used ↦ rw used
    ]
