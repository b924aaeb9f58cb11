-- ===== src/Agent/Invariant/Leak.antt =====
-- agent/qrexec-agent.c: the entry of a process that could not be forked.
use qubes_core_qrexec.Prelude.{
  ℕ, ◌≡◌, refl, inl, inr, false, Option, none, arith, ◌==◌, Bool-cases, Option-cases, first_from,
  first_from-found,
}
use qubes_core_qrexec.Protocol.{max_fds}
use qubes_core_qrexec.Agent.State.{Connection, Agent}
use qubes_core_qrexec.Agent.Connections.{is_free, register_vchan_connection}
use qubes_core_qrexec.Agent.Invariant.Kept.{IsKept}

-- An entry with a pid of -1 and a descriptor of -1.
pub record IsLeaked (c : Connection) : Type 0 where
  pub no_pid : c.pid ≡ none
  pub no_fd : c.fd ≡ none

-- The entry `i` is the same connection, and leaked.
pub record Holds (i : ℕ) (c : Connection) (a : Agent) : Type 0 where
  pub leaked : IsLeaked c
  pub entry : a.connection_info i ≡ c

pub leaked_not_free : (c : Connection) → IsLeaked c → is_free c ≡ false
leaked_not_free c h = rw h.no_pid refl

register-Holds :
    (i : ℕ) (c : Connection) (pid fd : Option ℕ) (domain port : ℕ) (a : Agent)
    → Holds i c a
    → Holds i c (register_vchan_connection pid fd domain port a)
unfolding register_vchan_connection
register-Holds i c pid fd domain port a h =
    elim (Option-cases (first_from (λ j. is_free (a.connection_info j)) 1 max_fds max_fds 0)) [
      | inl e ↦ rw (e, register_vchan_connection) h
      | inr (j, e) ↦
          let f = first_from-found (λ k. is_free (a.connection_info k)) 1 max_fds max_fds 0 j e in
          rw (e, register_vchan_connection)
            (record {
              leaked = h.leaked;
              entry = elim (Bool-cases (i == j)) [
                | inl q ↦
                    let p : i ≡ j = ground arith in
                    let z : is_free (a.connection_info i) ≡ false =
                      rw h.entry (leaked_not_free c h.leaked) in
                    absurd (cc (z, f.2, p))
                | inr q ↦ rw q h.entry
              ];
            })
    ]

pub Holds-IsKept : (i : ℕ) (c : Connection) → IsKept (Holds i c)
Holds-IsKept i c = record {
  stable = record {
    registers = λ pid fd domain port a _ h. register-Holds i c pid fd domain port a h;
    quiet = λ a w cl p h. record { leaked = h.leaked; entry = h.entry };
  };
  receives = λ a s woken signals h. record { leaked = h.leaked; entry = h.entry };
  starts_session = λ a pid e h. record { leaked = h.leaked; entry = h.entry };
  keeps_request = λ a j w u r g h. record { leaked = h.leaked; entry = h.entry };
  clears_request = λ a j h. record { leaked = h.leaked; entry = h.entry };
  ends_session = λ a e h. record { leaked = h.leaked; entry = h.entry };
}
