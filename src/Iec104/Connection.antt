-- ===== src/Iec104/Connection.antt =====
-- `crates/iec104/src/connection.rs`: the driver that feeds a session from a byte stream. The clock
-- `Instant::now()` is a parameter, the time at which the driver handles its n-th APDU; tokio's
-- stream and channels are outside, and so is what the caller's `tap` does with the bytes it sees.
pub mod Stream
use grid_edge_gateway.Prelude.{
  ℕ, zero, suc, ◌+◌, List, [], ◌∷◌, ◌++◌, Option, none, some, take, drop, Result, ok, err, panic,
  ◌>>=◌, length,
}
use grid_edge_gateway.Iec104.Apci.{Apdu, Error}
use grid_edge_gateway.Iec104.Apci
use grid_edge_gateway.Iec104.Session.{Session, Close, Step, on_apdu}

-- Why a connection ends.
pub data Ended : Type 0 where
  peer_closed io application_gone : Ended
  framing : Error → Ended
  protocol : Close → Ended

-- The bytes not parsed yet, the session, and the frames that the tap has seen coming in.
pub record Link : Type 0 where
  pub buf : List ℕ
  pub session : Session
  pub tapped : List (List ℕ)

-- `map_err(Ended::Protocol)`, with the rest of the link around the session.
unfoldable pub fed : Link → Step → Result Ended Link
fed l (ok s) = ok (record l { session = s })
fed l (err (c, s)) = err (protocol c)
fed l panic = panic

module _ (clock : ℕ → ℕ) where
  -- One round of `parse_all` on a frame that took `used` bytes.
  unfoldable pub take_frame : Link → Apdu → ℕ → Result Ended Link
  take_frame l apdu used =
      let tapped = record l {
        tapped = l.tapped ++ (take used l.buf ∷ []);
        buf = drop used l.buf;
      } in
      fed tapped (on_apdu l.session apdu (clock (length l.tapped)))

  unfoldable pub by_parse :
      Link → (Link → Result Ended Link) → Result Error (Option (Apdu × ℕ)) → Result Ended Link
  by_parse l again (ok (some (apdu, used))) = take_frame l apdu used >>= again
  by_parse l again (ok none) = ok l
  by_parse l again (err e) = err (framing e)
  by_parse l again panic = panic

  -- Each round takes at least one byte of the buffer, so more fuel than bytes is enough.
  unfoldable pub parse_loop : ℕ → Link → Result Ended Link
  parse_loop zero l = ok l
  parse_loop (suc fuel) l = by_parse l (λ l'. parse_loop fuel l') (Apci.parse l.buf)

  unfoldable pub parse_all : Link → Result Ended Link
  parse_all l = parse_loop (suc (length l.buf)) l

  -- A chunk that was read from the stream.
  unfoldable pub read_chunk : Link → List ℕ → Result Ended Link
  read_chunk l chunk = parse_all (record l { buf = l.buf ++ chunk })
