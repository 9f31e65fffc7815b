-- ===== src/Server/History.antt =====
-- Whole histories of requests.
use industrial_memory_protoc.Prelude.{
  ℕ, ◌+◌, ◌≤◌, ◌<◌, ◌≡◌, refl, ap, ◌∙◌, ◌⊎◌, inl, inr, false, List, [], ◌∷◌, arith, length, All,
  get_or, Option-cases,
}
use industrial_memory_protoc.Prelude.Bits.{IsByte}
use industrial_memory_protoc.Types.{Frame, accepted}
use industrial_memory_protoc.Codec.Frames.{decode}
use industrial_memory_protoc.Codec.RoundTrip.{IsFrame}
use industrial_memory_protoc.Codec.Canonical.{decode-IsFrame}
use industrial_memory_protoc.Memory.Store.{IsMap, length-copy, All-copy, get_or-copy_outside}
use industrial_memory_protoc.Server.{MemoryServer, ServerPolicy, HandleResult, handle}
use industrial_memory_protoc.Server.Response.{Reply}
use industrial_memory_protoc.Server.Handle.{Serves, loads, stores, rejects}
use industrial_memory_protoc.Server.Contract.{handle-Served, handle_undecoded}

-- The server after a history of byte strings, whatever they are.
unfoldable pub handle_all : MemoryServer → List (List ℕ) → MemoryServer
handle_all s [] = s
handle_all s (bytes ∷ history) = handle_all (handle s bytes).1 history

-- Every string of the history consists of bytes.
abbrev pub AreBytes : List (List ℕ) → Type 0
AreBytes history = All (λ bytes. All IsByte bytes) history

-- A cell that no write may reach: the server forbids writes, or the cell lies outside the policy's
-- window or outside the read/write region.
abbrev pub IsProtected : ServerPolicy → ℕ → Type 0
IsProtected policy i =
    (policy.writes_enabled ≡ false)
    ⊎ (i < policy.write_allow_begin)
    ⊎ (policy.write_allow_end < i)
    ⊎ (i < 0x100)
    ⊎ (0x7ff < i)

-- What a request may do to the server.
pub record Keeps (s s' : MemoryServer) : Type 0 where
  pub policy : s'.policy ≡ s.policy
  pub is_map : IsMap s'.memory
  pub protected :
      (i : ℕ) → IsProtected s.policy i → get_or s'.memory.cells i 0 ≡ get_or s.memory.cells i 0

same-Keeps : (s s' : MemoryServer) → IsMap s.memory → s' ≡ s → Keeps s s'
same-Keeps s s' m e = rw e (record { policy = refl; is_map = m; protected = λ i p. refl })

Serves-Keeps :
    (s s' : MemoryServer) (f : Frame) (r : Reply)
    → IsFrame f
    → IsMap s.memory
    → Serves s f r s'
    → Keeps s s'
Serves-Keeps s s' f r v m (loads _ _ _ _ _ e) = same-Keeps s s' m e
Serves-Keeps s s' f r v m (rejects _ _ _ _ e) = same-Keeps s s' m e
Serves-Keeps s s' f r v m (stores op on within high above below _ e) = rw e (record {
  policy = refl;
  is_map = record {
    size = length-copy f.payload f.address s.memory.cells ∙ m.size;
    valid = All-copy f.payload f.address s.memory.cells v.payload m.valid;
  };
  protected = λ i p. get_or-copy_outside f.payload f.address s.memory.cells i (beside i p);
})
  where
    beside : (i : ℕ) → IsProtected s.policy i → (i < f.address) ⊎ (f.address + length f.payload ≤ i)
    beside i (inl off) = absurd (cc (on, off))
    beside i (inr far) = omega arith

pub handle-Keeps :
    (s : MemoryServer) (bytes : List ℕ)
    → All IsByte bytes
    → IsMap s.memory
    → Keeps s (handle s bytes).1
handle-Keeps s bytes valid m = elim (Option-cases (accepted (decode bytes))) [
  | inl e ↦
      same-Keeps s (handle s bytes).1 m
        (ap (λ (p : HandleResult × MemoryServer). p.1) (handle_undecoded s bytes e))
  | inr (f, e) ↦
      let served = handle-Served s bytes f valid m e in
      Serves-Keeps s (handle s bytes).1 f served.reply (decode-IsFrame bytes f valid e).0 m
        served.serves
]

-- After any history of strings of bytes, decodable or not, that a server with a well-formed memory
-- map handles, the policy is unchanged, the map is still well-formed, and every protected cell has
-- its first value: with writes disabled that is every cell, and with writes enabled every cell
-- outside the policy's window or the read/write region.
pub handle_all-Keeps :
    (s : MemoryServer) (history : List (List ℕ))
    → AreBytes history
    → IsMap s.memory
    → Keeps s (handle_all s history)
unfolding handle_all
handle_all-Keeps s [] valid m = same-Keeps s s m refl
handle_all-Keeps s (bytes ∷ history) valid m =
    let one = handle-Keeps s bytes valid.0 m in
    let rest = handle_all-Keeps (handle s bytes).1 history valid.1 one.is_map in
    record {
      policy = rest.policy ∙ one.policy;
      is_map = rest.is_map;
      protected = λ i p. rest.protected i (rw one.policy p) ∙ one.protected i p;
    }
