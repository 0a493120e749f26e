-- ===== src/MacSocket/Events/Drained.antt =====
-- EVFILT_READ is registered with EV_CLEAR, so it is reported once for what arrives: the handler has to take
-- all of it.
use acpp_network.Prelude.{
  ℕ, zero, suc, ◌<◌, ◌≡◌, refl, sym, ap, ◌∙◌, subst, Bool, true, false, List, [], ◌∷◌, ◌++◌, Option,
  none, some, ok, throw, arith, ◌||◌, Ensures, Ensures-mono, bad_function_call, ==→ne, length,
  length-append, append-nil, append_assoc, ◌==◌, if_cases, if◌then◌else◌,
}
use acpp_network.Posix.{Fd}
use acpp_network.MacSocket.{
  Env, Kqueue, Machine, SocketBasePimpl, Call, connected, disconnected, received, sent, accepted,
  error, eagain, with_kernel, invoke,
}
use acpp_network.MacSocket.Events.{
  read_size, after_accept, recv_failed, end_of_stream, turn, read_loop, read_event,
}

-- recv(2) on one descriptor that meets no error: what waits is given from the front, the end of the stream
-- is told when nothing waits, and so is EAGAIN.
abbrev pub Receives :
    (l : Kqueue) → (l.Kernel → List ℕ) → l.Kernel → Option (List ℕ) × l.Kernel → Type 0
Receives l arrived k (none, k') = (arrived k ≡ []) × (arrived k' ≡ []) × (l.errno k' ≡ eagain)
Receives l arrived k (some [], k') = (arrived k ≡ []) × (arrived k' ≡ [])
Receives l arrived k (some (b ∷ bs), k') = arrived k ≡ (b ∷ bs) ++ arrived k'

pub record ReadLaws (e : Env) (fd : Fd) : Type 0 where
  pub arrived : e.Kernel → List ℕ
  pub recv_Receives : (k : e.Kernel) → Receives e.mac arrived k (e.recv fd read_size k)
  -- The application reads nothing itself, and keeps the socket open and its callbacks set.
  pub app_arrived :
      (c : Call) (s : SocketBasePimpl) (k : e.Kernel) → arrived (e.app c s k).1 ≡ arrived k
  pub app_socket :
      (c : Call) (s : SocketBasePimpl) (k : e.Kernel)
      → ((e.app c s k).0.fd_ ≡ s.fd_) × ((e.app c s k).0.callbacks_ ≡ s.callbacks_)

abbrev pub bytes_of : Call → List ℕ
bytes_of (received bytes) = bytes
bytes_of connected = []
bytes_of disconnected = []
bytes_of (sent n) = []
bytes_of (accepted s) = []
bytes_of (error n h) = []

-- The bytes that `on_received` was given, in order.
abbrev pub delivered : List Call → List ℕ
delivered [] = []
delivered (c ∷ cs) = bytes_of c ++ delivered cs

delivered-append :
    (cs : List Call) (c : Call) → delivered (cs ++ c ∷ []) ≡ delivered cs ++ bytes_of c
delivered-append [] c = append-nil (bytes_of c)
delivered-append (d ∷ cs) c =
    ap (λ x. bytes_of d ++ x) (delivered-append cs c)
    ∙ sym (append_assoc (bytes_of d) (delivered cs) (bytes_of c))

module _ (e : Env) {fd : Fd} (law : ReadLaws e fd) where
  -- The socket is open and listens to both ends of a stream.
  pub record Reads (m : Machine e) : Type 0 where
    pub own : m.sock.fd_ ≡ fd
    pub hears : m.sock.callbacks_.on_received ≡ true
    pub sees_end : m.sock.callbacks_.on_disconnected ≡ true

  -- All that waited has been given to `on_received`, in order, and nothing waits.
  pub record Drained (m : Machine e) (u : Unit {0}) (m' : Machine e) : Type 0 where
    pub all_given : delivered m'.calls ≡ delivered m.calls ++ law.arrived m.kernel
    pub none_left : law.arrived m'.kernel ≡ []

  invoke-delivered :
      (c : Call) (m : Machine e) → delivered (invoke e c m).calls ≡ delivered m.calls ++ bytes_of c
  unfolding invoke
  invoke-delivered c m = delivered-append m.calls c

  invoke-arrived :
      (c : Call) (m : Machine e) → law.arrived (invoke e c m).kernel ≡ law.arrived m.kernel
  unfolding invoke
  invoke-arrived c m = law.app_arrived c m.sock m.kernel

  invoke-Reads : (c : Call) (m : Machine e) → Reads m → Reads (invoke e c m)
  unfolding invoke
  invoke-Reads c m v =
      let s = law.app_socket c m.sock m.kernel in
      record {
        own = s.0 ∙ v.own;
        hears = ap (λ cb. cb.on_received) s.1 ∙ v.hears;
        sees_end = ap (λ cb. cb.on_disconnected) s.1 ∙ v.sees_end;
      }

  -- Nothing waited.
  ended-Drained :
      (m m' : Machine e)
      → law.arrived m.kernel ≡ []
      → delivered m'.calls ≡ delivered m.calls
      → law.arrived m'.kernel ≡ []
      → Drained m tt m'
  ended-Drained m m' z d z' = record {
    all_given = d ∙ sym (append-nil _) ∙ ap (λ x. delivered m.calls ++ x) (sym z);
    none_left = z';
  }

  -- Some bytes were given, and then the rest.
  given_more :
      (m told m' : Machine e) (u : Unit {0}) (bytes : List ℕ)
      → law.arrived m.kernel ≡ bytes ++ law.arrived told.kernel
      → delivered told.calls ≡ delivered m.calls ++ bytes
      → Drained told u m'
      → Drained m u m'
  given_more m told m' u bytes front given d = record {
    all_given =
        d.all_given
        ∙ ap (λ x. x ++ law.arrived told.kernel) given
        ∙ append_assoc (delivered m.calls) bytes (law.arrived told.kernel)
        ∙ ap (λ x. delivered m.calls ++ x) (sym front);
    none_left = d.none_left;
  }

  turn-Drained :
      (fuel : ℕ) (x : Option (List ℕ) × e.Kernel) (m : Machine e)
      → ((m' : Machine e)
          → length (law.arrived m'.kernel) < fuel
          → Reads m'
          → Ensures (Drained m') (read_loop e fuel m'))
      → length (law.arrived m.kernel) < suc fuel
      → Reads m
      → Receives e.mac law.arrived m.kernel x
      → Ensures (Drained m) (turn e (read_loop e fuel) x m)
  unfolding turn recv_failed end_of_stream
  turn-Drained fuel (none, k) m rest h v (z, z', again) =
      if_cases (λ (t : Machine e). Drained m tt t) (e.errno k == eagain)
        (λ _. ended-Drained m (with_kernel e k m) z refl z')
        (λ other. absurd (==→ne (e.errno k) eagain other again))
  turn-Drained fuel (some [], k) m rest h v (z, z') =
      let k_m = with_kernel e k m in
      subst
        (λ b.
          Ensures (Drained m)
            (if b then (ok tt, invoke e disconnected k_m) else (throw bad_function_call, k_m)))
        (sym v.sees_end)
        (ended-Drained m (invoke e disconnected k_m) z
          (invoke-delivered disconnected k_m ∙ append-nil _) (invoke-arrived disconnected k_m ∙ z'))
  turn-Drained fuel (some (b ∷ bs), k) m rest h v r =
      let k_m = with_kernel e k m in
      let told = invoke e (received (b ∷ bs)) k_m in
      let left = invoke-arrived (received (b ∷ bs)) k_m in
      subst (λ c. Ensures (Drained m) (read_loop e fuel (if c then told else k_m))) (sym v.hears)
        (Ensures-mono (Drained told) (Drained m) (read_loop e fuel told)
          (λ u m'' d.
            given_more m told m'' u (b ∷ bs) (r ∙ ap (λ x. (b ∷ bs) ++ x) (sym left))
              (invoke-delivered (received (b ∷ bs)) k_m) d)
          (rest told
            (omega (arith, ap length r, ap length left, length-append (b ∷ bs) (law.arrived k)))
            (invoke-Reads (received (b ∷ bs)) k_m
              (record { own = v.own; hears = v.hears; sees_end = v.sees_end }))))

  read_loop-Drained :
      (fuel : ℕ) (m : Machine e)
      → length (law.arrived m.kernel) < fuel
      → Reads m
      → Ensures (Drained m) (read_loop e fuel m)
  unfolding read_loop
  read_loop-Drained zero m h v = absurd (omega arith)
  read_loop-Drained (suc fuel) m h v =
      turn-Drained fuel (e.recv m.sock.fd_ read_size m.kernel) m (read_loop-Drained fuel) h v (
        subst (λ f. Receives e.mac law.arrived m.kernel (e.recv f read_size m.kernel)) (sym v.own)
          (law.recv_Receives m.kernel))

  -- On a descriptor that meets no error and is read by the loop alone, with both callbacks set and kept, the
  -- handler of EVFILT_READ returns if it has a turn for each byte and one more: `on_received` has been given all
  -- that waited, in order, and nothing waits.
  pub read_event-Drained :
      (fuel : ℕ) (m : Machine e)
      → length (law.arrived m.kernel) < fuel
      → Reads m
      → m.sock.listening_ ≡ false
      → Ensures (Drained m) (read_event e fuel m)
  unfolding read_event
  read_event-Drained fuel m h v quiet =
      let look = λ (b c : Bool).
        if b
        then after_accept e (e.accept m.sock.fd_ m.kernel) m
        else if c || m.sock.callbacks_.on_disconnected
        then read_loop e fuel m
        else (ok tt, m) in
      subst (λ b. Ensures (Drained m) (look b m.sock.callbacks_.on_received)) (sym quiet)
        (subst (λ c. Ensures (Drained m) (look false c)) (sym v.hears)
          (read_loop-Drained fuel m h v))
