-- ===== src/Paging/Source.antt =====
-- What the page table manager uses of the page frame allocator: `RequestPage`, and what it may rely on.
use mates_os.Base.{
  ℕ, ◌+◌, ◌/◌, ◌%◌, ◌^◌, ◌≤◌, ◌<◌, ◌≡◌, ◌≢◌, Bool, true, false, ◌==◌, if◌then◌else◌,
}

-- What one call of `RequestPage` may change, where pages are left.
pub record Fresh (State : Type 0) (taken : State → ℕ → Bool) (room : State → ℕ) (s : State)
    (page : ℕ) (s' : State) : Type 0 where
  pub nonnull : page ≢ 0
  pub aligned : page % 4096 ≡ 0
  pub in_range : page < 2 ^ 52
  pub was_free : taken s (page / 4096) ≡ false
  pub takes : (j : ℕ) → taken s' j ≡ (if page / 4096 == j then true else taken s j)
  pub room_left : room s ≤ room s' + 1

pub record Source : Type 1 where
  pub State : Type 0
  pub request_page : State → ℕ × State
  -- A state as the allocator leaves it.
  pub IsGood : State → Type 0
  -- Whether a page, by its number, is handed out or reserved.
  pub taken : State → ℕ → Bool
  -- How many pages are left.
  pub room : State → ℕ
  pub request_fresh :
      (s : State)
      → IsGood s
      → 0 < room s
      → Fresh State taken room s (request_page s).0 (request_page s).1 × IsGood (request_page s).1
