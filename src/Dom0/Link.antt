-- ===== src/Dom0/Link.antt =====
-- A descriptor or a vchan to a peer: what has arrived, what was sent, and how the sends to come end.
use qubes_core_qrexec.Prelude.{
  ℕ, ◌≡◌, ap, Bool, true, false, Option, none, some, List, [], ◌∷◌, ◌++◌, if◌then◌else◌, length,
  Bytes,
}
use qubes_core_qrexec.Protocol.{read_exact}
use qubes_core_qrexec.Protocol.{read_exact}
use qubes_core_qrexec.Protocol.Header.{read_exact-append}

-- Where the list of outcomes has ended, sends succeed.
pub record Link : Type 0 where
  pub incoming : Bytes
  pub sent : Bytes
  pub send_results : List Bool

abbrev pub next_send : List Bool → Bool
next_send [] = true
next_send (b ∷ _) = b

abbrev pub later_sends : List Bool → List Bool
later_sends [] = []
later_sends (_ ∷ bs) = bs

-- `write_all`, `write_vchan_all` or `libvchan_send`.
unfoldable pub write_link : Bytes → Link → Bool × Link
write_link s l =
    if next_send l.send_results
    then (true, record l { sent = l.sent ++ s; send_results = later_sends l.send_results })
    else (false, record l { send_results = later_sends l.send_results })

-- `read_all`, `read_vchan_all` or `libvchan_recv` of `n` bytes.
unfoldable pub read_link : ℕ → Link → Option (Bytes × Link)
read_link n l = elim (read_exact n l.incoming) [
  | none ↦ none
  | some (s, rest) ↦ some (s, record l { incoming = rest })
]

abbrev pub and_write : Bytes → Bool × Link → Bool × Link
and_write s (true, l) = write_link s l
and_write s (false, l) = (false, l)

pub read_link-append :
    (n : ℕ) (s t : Bytes) (sent : Bytes) (results : List Bool)
    → n ≡ length s
    → read_link n (record { incoming = s ++ t; sent = sent; send_results = results })
      ≡ some (s, record { incoming = t; sent = sent; send_results = results })
unfolding read_link
read_link-append n s t sent results e =
    let After : Option (Bytes × Bytes) → Option (Bytes × Link) = λ r. elim r [
      | none ↦ none
      | some (a, rest) ↦ some (a, record { incoming = rest; sent = sent; send_results = results })
    ] in
    ap After (read_exact-append s t n e)
