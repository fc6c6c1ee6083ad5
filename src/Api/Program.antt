-- ===== src/Api/Program.antt =====
-- src/api/rtdb_client.h, rtdb_client.cpp and src/test/client_main.cpp: the class that a program uses,
-- and the sample program.
use Prim.Native.String.{String}
use librtaio.Base.{
  ℕ, Bool, true, false, List, [], ◌∷◌, Option, none, some, ◌==◌, if◌then◌else◌, Outcome, done,
  thrown, fault, access, ◌>>=◌,
}
use librtaio.Stream.Host.{Host}
use librtaio.Api.Client.{Socket}
use librtaio.Api.Client

-- m_ptr_impl, with the socket of its object, and whether m_mutex_lock is held.
pub record RtdbClient : Type 0 where
  pub impl : Option Socket
  pub locked : Bool

-- The constructor; address::from_string throws where the text is no address.
unfoldable pub rtdb_client : (address : Option Socket) → Outcome RtdbClient
rtdb_client none = thrown
rtdb_client (some s) = done (record { impl = some s; locked = false })

-- boost::mutex is not recursive: a thread that holds it must not take it again.
unfoldable pub lock : RtdbClient → Outcome RtdbClient
lock cli = if cli.locked then fault else done (record cli { locked = true })

-- A call of the object under scoped_lock, which gives the mutex back.
unfoldable pub locked_call : (Socket → Outcome (ℕ × Socket)) → RtdbClient → Outcome (ℕ × RtdbClient)
unfolding lock
locked_call call cli = lock cli >>= λ cli'.
    access cli'.impl >>= λ s. call s >>= λ r. done (r.0, record { impl = some r.1; locked = false })

module _ (h : Host) (write_some : List ℕ → ℕ × Bool) where
  unfoldable pub connect : ℕ → Bool → List ℕ → List ℕ → RtdbClient → Outcome (ℕ × RtdbClient)
  connect now connected computer process =
      locked_call (Client.connect h now write_some connected computer process)

  -- The result is not looked at.
  unfoldable pub disconnect : ℕ → RtdbClient → Outcome RtdbClient
  disconnect now cli = locked_call (Client.disconnect h now write_some) cli >>= λ r. done r.1

  -- The destructor.
  unfoldable pub destroy : RtdbClient → Outcome RtdbClient
  unfolding lock
  destroy cli = lock cli >>= λ cli'. done (record cli' { impl = none; locked = false })

  -- The sample program at the times of its two requests: what it prints, and the socket at its end.
  unfoldable pub client_main :
      (now later : ℕ)
      → Bool
      → List ℕ
      → List ℕ
      → Option Socket
      → Outcome (ℕ × List String × Option Socket)
  client_main now later connected computer process address = rtdb_client address >>= λ cli.
      connect now connected computer process cli >>= λ r.
      let talk = disconnect later r.1 >>= λ cli'.
      destroy cli' >>= λ _. done (0, "Connect server OK...!" ∷ [], cli'.impl) in
      let leave = destroy r.1 >>= λ _. done (0, [], r.1.impl) in if r.0 == 0 then talk else leave
