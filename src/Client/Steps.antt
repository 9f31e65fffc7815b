-- ===== src/Client/Steps.antt =====
-- What a part of an operation does to a client: how it uses the transport, and what it counts.
use industrial_memory_protoc.Prelude.{
  ℕ, suc, ◌+◌, ◌%◌, ◌^◌, ◌≡◌, ◌≢◌, refl, ◌∙◌, Bool, false, List, arith,
}
use industrial_memory_protoc.Transport.{ℤ, TransportError, ITransport}
use industrial_memory_protoc.Client.Types.{Client}
use industrial_memory_protoc.Client.Metrics.{Totals, Totals-trans}

module _ {T : Type 0} (i : ITransport T) (bytes : List ℕ) (deadline : ℤ) where
  -- The transport went from `t` to `u`, in `n` exchanges of the same bytes, `k` of which it reported
  -- as timed out, and with `l` connections asked for where there was none.
  pub data Use (t : T) : ℕ → ℕ → ℕ → T → Type 0 where
    idle : {n l k : ℕ} {u : T} → n ≡ 0 → l ≡ 0 → k ≡ 0 → u ≡ t → Use t n l k u
    dials :
        {n l l₀ k : ℕ} {v u : T}
        → Use t n l₀ k v
        → i.connected v ≡ false
        → u ≡ (i.connect v).1
        → l ≡ suc l₀
        → Use t n l k u
    hangs_up : {n l k : ℕ} {v u : T} → Use t n l k v → u ≡ i.close v → Use t n l k u
    waits :
        {n n₀ l k k₀ : ℕ} {v u : T}
        → Use t n₀ l k₀ v
        → (i.exchange v bytes deadline).0.error ≡ TransportError.timeout
        → u ≡ (i.exchange v bytes deadline).1
        → n ≡ suc n₀
        → k ≡ suc k₀
        → Use t n l k u
    exchanges :
        {n n₀ l k : ℕ} {v u : T}
        → Use t n₀ l k v
        → (i.exchange v bytes deadline).0.error ≢ TransportError.timeout
        → u ≡ (i.exchange v bytes deadline).1
        → n ≡ suc n₀
        → Use t n l k u

  Use-trans :
      {t u v : T} {n l k n' l' k' : ℕ} (n'' l'' k'' : ℕ)
      → Use t n l k u
      → Use u n' l' k' v
      → n'' ≡ n + n'
      → l'' ≡ l + l'
      → k'' ≡ k + k'
      → Use t n'' l'' k'' v
  Use-trans n'' l'' k'' a (idle x y z e) en el ek =
      rw e (renamed a (omega (arith, en, x)) (omega (arith, el, y)) (omega (arith, ek, z)))
    where
      renamed :
          {t u : T} {n l k n' l' k' : ℕ}
          → Use t n l k u
          → n' ≡ n
          → l' ≡ l
          → k' ≡ k
          → Use t n' l' k' u
      renamed b p q r = rw (p, q, r) b
  Use-trans {l = l} n'' l'' k'' a (dials {l₀ = l₀} b c e x) en el ek =
      dials (Use-trans n'' (l + l₀) k'' a b en refl ek) c e (omega (arith, el, x))
  Use-trans n'' l'' k'' a (hangs_up b e) en el ek = hangs_up (Use-trans n'' l'' k'' a b en el ek) e
  Use-trans {n = n} {k = k} n'' l'' k'' a (waits {n₀ = n₀} {k₀ = k₀} b c e x y) en el ek =
      waits (Use-trans (n + n₀) l'' (k + k₀) a b refl el refl) c e (omega (arith, en, x))
        (omega (arith, ek, y))
  Use-trans {n = n} n'' l'' k'' a (exchanges {n₀ = n₀} b c e x) en el ek =
      exchanges (Use-trans (n + n₀) l'' k'' a b refl el ek) c e (omega (arith, en, x))

  -- From `c` to `c'`, with so many exchanges and retries, and a protocol error or none.
  pub record Step (c c' : Client T) (sent_times again_sent : ℕ) (failed : Bool) : Type 0 where
    pub connections : ℕ
    pub timed_out : ℕ
    pub transport : Use c.transport sent_times connections timed_out c'.transport
    pub totals : Totals c.metrics c'.metrics sent_times again_sent failed
    pub reconnects : c'.metrics.reconnects ≡ (c.metrics.reconnects + connections) % 2 ^ 64
    pub timeouts : c'.metrics.timeouts ≡ (c.metrics.timeouts + timed_out) % 2 ^ 64
    pub limit : c'.maximum_read_attempts ≡ c.maximum_read_attempts

  pub Step-trans :
      {c c' c'' : Client T} {e r e' r' : ℕ} {failed : Bool} (sent_times again_sent : ℕ)
      → Step c c' e r false
      → Step c' c'' e' r' failed
      → sent_times ≡ e + e'
      → again_sent ≡ r + r'
      → Step c c'' sent_times again_sent failed
  Step-trans sent_times again_sent a b sum_e sum_r = record {
    connections = a.connections + b.connections;
    timed_out = a.timed_out + b.timed_out;
    transport =
        Use-trans sent_times (a.connections + b.connections) (a.timed_out + b.timed_out) a.transport
          b.transport sum_e refl refl;
    totals = Totals-trans sent_times again_sent a.totals b.totals sum_e sum_r;
    reconnects = omega (arith, a.reconnects, b.reconnects);
    timeouts = omega (arith, a.timeouts, b.timeouts);
    limit = b.limit ∙ a.limit;
  }
