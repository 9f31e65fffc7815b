-- ===== src/Cli/Dispatch.antt =====
-- What `main` makes of the command line.
use industrial_memory_protoc.Prelude.{
  ℕ, ◌≡◌, ◌≢◌, ◌↔◌, refl, sym, ap, ◌∙◌, inl, inr, List, [], ◌∷◌, arith, bytes_eq, bytes_eq_iff,
  Bool-cases,
}
use industrial_memory_protoc.Memory.{codes}
use industrial_memory_protoc.Cli.Commands.{
  Outcome, usage, run_inspect, run_encode_read, run_read, run_write, run_demo, main,
}
use industrial_memory_protoc.Cli.Reads.{unparsed, run_read-ReadRun}
use industrial_memory_protoc.Cli.Reads as R
use industrial_memory_protoc.Cli.Writes.{WriteRun, unconfirmed, run_write-WriteRun}
use industrial_memory_protoc.Cli.Writes as W
use industrial_memory_protoc.Cli.Inspects.{
  not_hex, rejected, inspected, run_inspect-InspectRun, bad_arguments, vector,
  run_encode_read-EncodeRun,
}

-- The five forms of a command, each with what runs for it.
pub data Command : List (List ℕ) → Outcome → Type 0 where
  inspect : (text : List ℕ) → Command (codes "inspect" ∷ text ∷ []) (run_inspect text)
  encode_read :
      (address len : List ℕ)
      → Command (codes "encode-read" ∷ address ∷ len ∷ []) (run_encode_read address len)
  read : (address len : List ℕ) → Command (codes "read" ∷ address ∷ len ∷ []) (run_read address len)
  write :
      (address payload confirmation : List ℕ)
      → Command
          (codes "write" ∷ address ∷ payload ∷ confirmation ∷ [])
          (run_write address payload confirmation)
  demo : Command (codes "demo" ∷ []) run_demo

-- A command runs, and whatever is not one gets the usage.
runs : {arguments : List (List ℕ)} {o : Outcome} → Command arguments o → main arguments ≡ o
unfolding main
runs (inspect text) = refl
runs (encode_read address len) = refl
runs (read address len) = refl
runs (write address payload confirmation) = refl
runs demo = refl

abbrev IsUnknown : List (List ℕ) → Type 0
IsUnknown arguments = (o : Outcome) → Command arguments o → ⊥

unknown : (arguments : List (List ℕ)) → IsUnknown arguments → main arguments ≡ usage
unfolding main
unknown [] n = refl
unknown (c ∷ []) n = elim (Bool-cases (bytes_eq c (codes "demo"))) [
  | inl e ↦ absurd (n run_demo (rw ((bytes_eq_iff c (codes "demo")).0 e) demo))
  | inr e ↦ ground (arith, e)
]
unknown (c ∷ a ∷ []) n = elim (Bool-cases (bytes_eq c (codes "inspect"))) [
  | inl e ↦ absurd (n (run_inspect a) (rw ((bytes_eq_iff c (codes "inspect")).0 e) (inspect a)))
  | inr e ↦ ground (arith, e)
]
unknown (c ∷ a ∷ b ∷ []) n = elim (Bool-cases (bytes_eq c (codes "encode-read"))) [
  | inl e ↦
      absurd (
        n (run_encode_read a b) (rw ((bytes_eq_iff c (codes "encode-read")).0 e) (encode_read a b)))
  | inr e ↦ elim (Bool-cases (bytes_eq c (codes "read"))) [
    | inl f ↦ absurd (n (run_read a b) (rw ((bytes_eq_iff c (codes "read")).0 f) (read a b)))
    | inr f ↦ ground (arith, e, f)
  ]
]
unknown (c ∷ a ∷ b ∷ d ∷ []) n = elim (Bool-cases (bytes_eq c (codes "write"))) [
  | inl e ↦ absurd (n (run_write a b d) (rw ((bytes_eq_iff c (codes "write")).0 e) (write a b d)))
  | inr e ↦ ground (arith, e)
]
unknown (c ∷ a ∷ b ∷ d ∷ x ∷ rest) n = ground arith

status_of : {o o' : Outcome} → o ≡ o' → o'.status ≢ 1 → o.status ≢ 1
status_of e n f = n (ap (λ (o : Outcome). o.status) (sym e) ∙ f)

-- No command exits with the status of the usage.
never_usage : {arguments : List (List ℕ)} {o : Outcome} → Command arguments o → o.status ≢ 1
unfolding run_demo
never_usage (inspect text) = elim (run_inspect-InspectRun text) [
  | not_hex n e ↦ status_of e (λ f. omega (arith, f))
  | rejected bytes s l n e ↦ status_of e (λ f. omega (arith, f))
  | inspected frame v c s e ↦ status_of e (λ f. omega (arith, f))
]
never_usage (encode_read address len) = elim (run_encode_read-EncodeRun address len) [
  | bad_arguments n e ↦ status_of e (λ f. omega (arith, f))
  | vector a l pa pl low high text e i ↦ status_of e (λ f. omega (arith, f))
]
never_usage (read address len) = elim (run_read-ReadRun address len) [
  | unparsed n e ↦ status_of e (λ f. omega (arith, f))
  | R.refused a l pa pl n e ↦ status_of e (λ f. omega (arith, f))
  | R.denied a l pa pl low high above e ↦ status_of e (λ f. omega (arith, f))
  | R.granted a l pa pl r e ↦ status_of e (λ f. omega (arith, f))
]
never_usage (write address payload confirmation) =
    elim (run_write-WriteRun address payload confirmation) [
      | unconfirmed n e ↦ status_of e (λ f. omega (arith, f))
      | W.refused a p c n e ↦ status_of e (λ f. omega (arith, f))
      | W.denied a p c n out e ↦ status_of e (λ f. omega (arith, f))
      | W.granted a p c s e ↦ status_of e (λ f. omega (arith, f))
    ]
never_usage demo = λ f. omega (arith, f)

-- `main` runs the command that its arguments, the program's name left out, spell with all its
-- arguments and no more; it exits with 1 exactly if they spell none, and then prints the usage.
pub main_iff :
    (arguments : List (List ℕ))
    → ((o : Outcome) → Command arguments o → main arguments ≡ o)
      × (((main arguments).status ≡ 1) ↔ ((o : Outcome) → Command arguments o → ⊥))
      × (((o : Outcome) → Command arguments o → ⊥) → main arguments ≡ usage)
main_iff arguments = (
  λ o c. runs c,
  (
    λ e o c. never_usage c (ap (λ (r : Outcome). r.status) (sym (runs c)) ∙ e),
    λ n. ap (λ (r : Outcome). r.status) (unknown arguments n),
  ),
  unknown arguments,
)
