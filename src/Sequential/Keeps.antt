-- ===== src/Sequential/Keeps.antt =====
-- The calls of the sequential tracer do not change the length of the buffer, however they end.
use traceroute.Base.{
  ℕ, zero, suc, ◌+◌, ◌/◌, ◌%◌, ◌^◌, ◌≡◌, sym, ap, ◌∙◌, Bool, false, ◌||◌, not, ltb, leb, Option,
  none, List, [], ◌∷◌, ◌++◌, Bytes, length, ok, throw, send_failed, first_call, ok-injective,
  Bool-cases, inl, inr,
}
use traceroute.Address.{SocketAddress}
use traceroute.Packet.{Packet}
use traceroute.Response.{ResponseInfo}
use traceroute.Probe.{ProbeResult, TracerouteResult}
use traceroute.Tracer.{Env, IsEnv, get_time_left, min_time_wait_for_response}
use traceroute.Sequential.{
  Received, Progress, judge, client_of, receive_loop, conclude, probe, retry_loop, ttl_loop,
  begin_probing,
}

module _ (env : Env) {target : SocketAddress} (laws : IsEnv env target) where
  open laws use {receiving_lem}

  receive_loop-length :
      (fuel : ℕ) (packet : Packet) (sent_at timeout : ℕ) (valid : Bool) (resp : Option ResponseInfo)
      (b : Bytes) (w : env.World) (r : Received env.World)
      → receive_loop env fuel packet sent_at timeout valid resp b w ≡ ok r
      → length r.buffer ≡ length b
  unfolding receive_loop
  receive_loop-length zero packet sent_at timeout valid resp b w r e = cc
  receive_loop-length (suc fuel) packet sent_at timeout valid resp b w r e =
      let (time_left, w₁) = get_time_left env sent_at timeout w in
      elim (Bool-cases (valid || ltb time_left min_time_wait_for_response)) [
        | inl d ↦
            let e' : ok
                  (record { is_response_valid = valid; resp_info = resp; buffer = b; world = w₁ })
                ≡ ok r =
              rw (d, receive_loop) at e in
            ap (λ (x : Received env.World). length x.buffer) (sym (ok-injective _ _ e'))
        | inr d ↦
            let ((resp', b', w₂), c, k) =
              first_call (env.try_receiving b (time_left / 1000) w₁) (rw (d, receive_loop) at e) in
            let (valid', _, k') = first_call (judge packet valid resp' b') k in
            receive_loop-length fuel packet sent_at timeout valid' resp' b' w₂ r k'
            ∙ (receiving_lem b b' (time_left / 1000) w₁ w₂ resp' c).1
      ]

  conclude-length :
      (packet : Packet) (sent_at timeout : ℕ) (reached : Bool) (r : Received env.World)
      (p : Progress ProbeResult env.World)
      → conclude env packet sent_at timeout reached r ≡ ok p
      → length p.buffer ≡ length r.buffer
  unfolding conclude
  conclude-length packet sent_at timeout reached r p e = elim (Bool-cases r.is_response_valid) [
    | inl y ↦
        let (client, _, k) = first_call (client_of r.resp_info) (rw (y, conclude) at e) in
        ap (λ (x : Progress ProbeResult env.World). length x.buffer) (sym (ok-injective _ _ k))
    | inr n ↦
        ap (λ (x : Progress ProbeResult env.World). length x.buffer)
          (sym (ok-injective _ p (rw (n, conclude) at e)))
  ]

  probe-length :
      (fuel ttl timeout : ℕ) (reached : Bool) (b : Bytes) (w : env.World)
      (p : Progress ProbeResult env.World)
      → probe env fuel ttl timeout reached b w ≡ ok p
      → length p.buffer ≡ length b
  unfolding probe
  probe-length fuel ttl timeout reached b w p e =
      let ((packet, w₁), _, k) = first_call (env.create_packet w) e in
      let ((sent, w₂), _, k') = first_call (env.try_sending packet ttl 5000 w₁) k in
      let (sent_at, w₃) = env.now w₂ in
      elim (Bool-cases (not sent)) [
        | inl y ↦ let e' : throw send_failed ≡ ok p = rw y at k' in cc e'
        | inr n ↦
            let (r, c, l) =
              first_call (receive_loop env fuel packet sent_at timeout false none b w₃)
                (rw n at k') in
            conclude-length packet sent_at timeout reached r p l
            ∙ receive_loop-length fuel packet sent_at timeout false none b w₃ r c
      ]

  retry_loop-length :
      (fuel ttl timeout left : ℕ) (results : List ProbeResult) (reached : Bool) (b : Bytes)
      (w : env.World) (p : Progress (List ProbeResult) env.World)
      → retry_loop env fuel ttl timeout left results reached b w ≡ ok p
      → length p.buffer ≡ length b
  unfolding retry_loop
  retry_loop-length fuel ttl timeout zero results reached b w p e =
      ap (λ (x : Progress (List ProbeResult) env.World). length x.buffer) (sym (ok-injective _ _ e))
  retry_loop-length fuel ttl timeout (suc left) results reached b w p e =
      let (r, c, k) = first_call (probe env fuel ttl timeout reached b w) e in
      retry_loop-length fuel ttl timeout left (results ++ (r.result ∷ [])) r.destination_reached
        r.buffer r.world p k
      ∙ probe-length fuel ttl timeout reached b w r c

  ttl_loop-length :
      (hops fuel ttl ttl_end retries timeout : ℕ) (probes : List TracerouteResult) (b : Bytes)
      (w : env.World) (p : Progress (List TracerouteResult) env.World)
      → ttl_loop env hops fuel ttl ttl_end retries timeout probes b w ≡ ok p
      → length p.buffer ≡ length b
  unfolding ttl_loop
  ttl_loop-length zero fuel ttl ttl_end retries timeout probes b w p e = cc
  ttl_loop-length (suc hops) fuel ttl ttl_end retries timeout probes b w p e =
      elim (Bool-cases (leb ttl ttl_end)) [
        | inr n ↦
            ap (λ (x : Progress (List TracerouteResult) env.World). length x.buffer)
              (sym (ok-injective _ p (rw (n, ttl_loop) at e)))
        | inl y ↦
            let (h, c, k) =
              first_call (retry_loop env fuel ttl timeout retries [] false b w)
                (rw (y, ttl_loop) at e) in
            let l = retry_loop-length fuel ttl timeout retries [] false b w h c in
            elim (Bool-cases h.destination_reached) [
              | inl d ↦
                  ap (λ (x : Progress (List TracerouteResult) env.World). length x.buffer)
                    (sym (ok-injective _ p (rw d at k)))
                  ∙ l
              | inr d ↦
                  ttl_loop-length hops fuel ((ttl + 1) % 2 ^ 32) ttl_end retries timeout _ h.buffer
                    h.world p (rw d at k)
                  ∙ l
            ]
      ]

  pub begin_probing-length :
      (hops fuel ttl_begin ttl_end retries timeout : ℕ) (b : Bytes) (w : env.World)
      (p : Progress (List TracerouteResult) env.World)
      → begin_probing env hops fuel ttl_begin ttl_end retries timeout b w ≡ ok p
      → length p.buffer ≡ length b
  unfolding begin_probing
  begin_probing-length hops fuel ttl_begin ttl_end retries timeout b w p e =
      ttl_loop-length hops fuel ttl_begin ttl_end retries timeout [] b w p e
