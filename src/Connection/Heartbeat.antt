-- ===== src/Connection/Heartbeat.antt =====
-- The heartbeat of a connection that nobody answers.
use hermes_channel_octo.Prelude.{
  ℕ, zero, suc, ◌+◌, ◌≡◌, ◌≤◌, refl, sym, ap, ◌∙◌, Bool, true, false, [], ◌∷◌, ◌++◌, arith, ltb,
  leb, Bool-cases, inl, inr,
}
use hermes_channel_octo.Protocol.Packets.{encode_ping_packet}
use hermes_channel_octo.Connection.{Connection, send, beat, beats}

-- The connection is up and its heartbeat goes on.
pub record IsAlive (c : Connection) : Type 0 where
  pub connected : c.connected ≡ true
  pub socket_open : c.socket_open ≡ true
  pub beating : c.heartbeat_running ≡ true

module _ (delivers : ℕ → Bool) (all_delivered : (n : ℕ) → delivers n ≡ true) where
  -- A ping that is sent.
  abbrev pinged : Connection → Connection
  pinged c = record c {
    ping_retry_count = c.ping_retry_count + 1;
    writes = c.writes + 1;
    sent = c.sent ++ encode_ping_packet ∷ [];
    heartbeat_running = c.connected;
  }

  beat-pinged :
      (c : Connection)
      → IsAlive c
      → ltb c.ping_max_retry (c.ping_retry_count + 1) ≡ false
      → beat delivers c ≡ pinged c
  unfolding beat send
  beat-pinged c a h = simp (a.beating, h, a.socket_open, all_delivered c.writes) refl

  beat-dropped :
      (c : Connection)
      → IsAlive c
      → ltb c.ping_max_retry (c.ping_retry_count + 1) ≡ true
      → beat delivers c ≡ record c {
        ping_retry_count = c.ping_retry_count + 1;
        connected = false;
        socket_open = false;
        heartbeat_running = false;
      }
  unfolding beat
  beat-dropped c a h = simp (a.beating, h) refl

  beat-stopped : (c : Connection) → c.heartbeat_running ≡ false → beat delivers c ≡ c
  unfolding beat
  beat-stopped c h = simp h refl

  beats-zero : (c : Connection) → beats delivers 0 c ≡ c
  unfolding beats
  beats-zero c = refl

  beats-suc :
      (n : ℕ) (c : Connection) → beats delivers (suc n) c ≡ beats delivers n (beat delivers c)
  unfolding beats
  beats-suc n c = refl

  beats-stopped : (n : ℕ) (c : Connection) → c.heartbeat_running ≡ false → beats delivers n c ≡ c
  beats-stopped zero c h = beats-zero c
  beats-stopped (suc n) c h =
      beats-suc n c ∙ ap (beats delivers n) (beat-stopped c h) ∙ beats-stopped n c h

  -- A peer that is silent is noticed: while no PONG comes and every ping goes out, the connection is
  -- up after so many rounds of the heartbeat exactly if the unanswered pings are no more than the
  -- allowed number, so that it is given up with the first ping beyond it.
  pub beats-connected :
      (n : ℕ) (c : Connection)
      → IsAlive c
      → c.ping_retry_count ≤ c.ping_max_retry
      → (beats delivers n c).connected ≡ leb (c.ping_retry_count + n) c.ping_max_retry
  beats-connected zero c a h =
      let up : leb (c.ping_retry_count + 0) c.ping_max_retry ≡ true = ground arith in
      ap (λ (x : Connection). x.connected) (beats-zero c) ∙ a.connected ∙ sym up
  beats-connected (suc n) c a h =
      elim (Bool-cases (ltb c.ping_max_retry (c.ping_retry_count + 1))) [
        | inl t ↦
            let gone : leb (c.ping_retry_count + suc n) c.ping_max_retry ≡ false = ground arith in
            ap (λ (x : Connection). x.connected) (beats-suc n c)
            ∙ ap (λ x. (beats delivers n x).connected) (beat-dropped c a t)
            ∙ ap (λ (x : Connection). x.connected) (beats-stopped n _ refl)
            ∙ sym gone
        | inr t ↦
            let alive : IsAlive (pinged c) = record {
              connected = a.connected;
              socket_open = a.socket_open;
              beating = a.connected;
            } in
            let more = beats-connected n (pinged c) alive (ground arith) in
            ap (λ (x : Connection). x.connected) (beats-suc n c)
            ∙ ap (λ x. (beats delivers n x).connected) (beat-pinged c a t)
            ∙ more
            ∙ ap (λ k. leb k c.ping_max_retry) (omega arith)
      ]
