-- ===== src/Client/Ids.antt =====
-- Request identifiers.
use industrial_memory_protoc.Prelude.{
  ℕ, zero, suc, ◌+◌, ◌-◌, ◌%◌, ◌^◌, ◌≤◌, ◌<◌, ◌≡◌, ◌∙◌, ◌≢◌, arith,
}
use industrial_memory_protoc.Client.Types.{Client}
use industrial_memory_protoc.Client.{allocate_request_id}

-- The client after `k` allocations, and the identifier that the next one hands out.
unfoldable pub after_allocations : {T : Type 0} → ℕ → Client T → Client T
after_allocations zero c = c
after_allocations (suc k) c = (allocate_request_id (after_allocations k c)).1

abbrev pub nth_id : {T : Type 0} → Client T → ℕ → ℕ
nth_id c k = (allocate_request_id (after_allocations k c)).0

abbrev pub IsId : ℕ → Type 0
IsId n = (1 ≤ n) × (n < 2 ^ 32)

following_id :
    {T : Type 0} (c : Client T)
    → IsId c.next_request_id
    → (allocate_request_id c).1.next_request_id ≡ c.next_request_id % (2 ^ 32 - 1) + 1
unfolding allocate_request_id
following_id c h = ground arith

next_after :
    {T : Type 0} (c : Client T) (k : ℕ)
    → IsId c.next_request_id
    → (after_allocations k c).next_request_id ≡ (c.next_request_id - 1 + k) % (2 ^ 32 - 1) + 1
unfolding after_allocations
next_after c zero h = omega arith
next_after c (suc k) h =
    let ih = next_after c k h in following_id (after_allocations k c) (omega arith) ∙ omega arith

-- From a client whose next identifier is a nonzero 32-bit number, the identifiers run through 1 to
-- 2^32 - 1 in a cycle that leaves zero out: so they are nonzero, and any two of fewer than 2^32
-- consecutive allocations differ.
pub nth_id_lem :
    {T : Type 0} (c : Client T)
    → IsId c.next_request_id
    → ((k : ℕ) → nth_id c k ≡ (c.next_request_id - 1 + k) % (2 ^ 32 - 1) + 1)
      × ((k : ℕ) → IsId (nth_id c k))
      × ((j k : ℕ) → j < k → k < j + (2 ^ 32 - 1) → nth_id c j ≢ nth_id c k)
unfolding allocate_request_id
nth_id_lem c h = (
  λ k. next_after c k h,
  λ k. omega (arith, next_after c k h),
  λ j k p q e. omega (arith, e, next_after c j h, next_after c k h),
)
