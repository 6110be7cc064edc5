-- ===== src/Limit/DataSize/Start.antt =====
-- What data_size.rs counts for a transaction before its first frame.
use mega_evm.Prelude.{
  ℕ, ◌+◌, ◌-◌, ◌*◌, ◌<◌, ◌≡◌, refl, ap, ◌∙◌, Bool, true, false, Option, some, none, List, [], ◌∷◌,
  length, u64_mod, add64, mul64, arith,
}
use mega_evm.Limit.Events.{TxData}
use mega_evm.Limit.Frame as Frame
use mega_evm.Limit.Frame.{FrameLimitTracker}
use mega_evm.Limit.Frame.Totals.{total_used, total_refund, net_usage-eq-totals}
use mega_evm.Limit.DataSize.{
  DataSizeTracker, before_tx_start, record_tx_persistent, record_authorities, access_list_size,
  sum64, tx_usage,
}

abbrev pub sum : List ℕ → ℕ
sum [] = 0
sum (n ∷ ns) = n + sum ns

abbrev pub access_size : Option (List ℕ) → ℕ
access_size none = 0
access_size (some sizes) = sum sizes

-- The number of authorizations that recover an address.
abbrev pub recovered : List Bool → ℕ
recovered [] = 0
recovered (true ∷ rest) = 1 + recovered rest
recovered (false ∷ rest) = recovered rest

-- 110 bytes and the input, the access list, 101 bytes for each authorization, and 40 for each
-- account that is written: those of the authorizations that recover an address, and the caller's.
abbrev pub size_of : TxData → ℕ
size_of tx =
    110
    + tx.input_len
    + access_size tx.access_sizes
    + length tx.authorities * 101
    + 40 * recovered tx.authorities
    + 40

-- What `n` more bytes for the transaction change.
record Adds (n : ℕ) (t t' : DataSizeTracker) : Type 0 where
  used : total_used t'.frame_tracker ≡ total_used t.frame_tracker + n
  refund : total_refund t'.frame_tracker ≡ total_refund t.frame_tracker

record_tx_persistent-Adds :
    (n : ℕ) (t : DataSizeTracker)
    → total_used t.frame_tracker + n < u64_mod
    → Adds n t (record_tx_persistent n t)
unfolding record_tx_persistent Frame.record_tx_persistent
record_tx_persistent-Adds n t h = record { used = omega arith; refund = refl }

sum64_lem : (ns : List ℕ) → sum ns < u64_mod → sum64 ns ≡ sum ns
unfolding sum64
sum64_lem [] h = refl
sum64_lem (n ∷ ns) h = rw (sum64_lem ns (omega arith)) (omega arith)

access_list_size_lem :
    (o : Option (List ℕ)) → access_size o < u64_mod → access_list_size o ≡ access_size o
unfolding access_list_size
access_list_size_lem none h = refl
access_list_size_lem (some ns) h = sum64_lem ns h

record_authorities-Adds :
    (authorities : List Bool) (t : DataSizeTracker)
    → total_used t.frame_tracker + 40 * recovered authorities < u64_mod
    → Adds (40 * recovered authorities) t (record_authorities authorities t)
unfolding record_authorities
record_authorities-Adds [] t h = record { used = omega arith; refund = refl }
record_authorities-Adds (true ∷ rest) t h =
    let first = record_tx_persistent-Adds 40 t (omega arith) in
    let next = record_authorities-Adds rest (record_tx_persistent 40 t) (omega arith) in
    record {
      used = omega (arith, first.used, next.used);
      refund = omega (arith, first.refund, next.refund);
    }
record_authorities-Adds (false ∷ rest) t h = record_authorities-Adds rest t h

-- A transaction adds to the usage, on whatever was recorded and refunded before, exactly the bytes
-- of itself and of the accounts that it writes, as long as the totals fit in 64 bits.
pub before_tx_start-usage :
    (tx : TxData) (t : DataSizeTracker)
    → total_used t.frame_tracker + size_of tx < u64_mod
    → total_refund t.frame_tracker < u64_mod
    → tx_usage (before_tx_start tx t)
      ≡ some (total_used t.frame_tracker + size_of tx - total_refund t.frame_tracker)
unfolding before_tx_start tx_usage
before_tx_start-usage tx t h r =
    let access = access_list_size_lem tx.access_sizes (omega arith) in
    let own = 110 + tx.input_len + access_size tx.access_sizes + length tx.authorities * 101 in
    let size : add64 (add64 (add64 110 tx.input_len) (access_list_size tx.access_sizes))
          (mul64 (length tx.authorities) 101)
        ≡ own =
      rw access (omega arith) in
    let t1 = record_tx_persistent own t in
    let t2 = record_authorities tx.authorities t1 in
    let a = record_tx_persistent-Adds own t (omega arith) in
    let b = record_authorities-Adds tx.authorities t1 (omega arith) in
    let c = record_tx_persistent-Adds 40 t2 (omega arith) in
    rw size (
      net_usage-eq-totals (record_tx_persistent 40 t2).frame_tracker
        (record { used_fits = omega arith; refund_fits = omega arith })
      ∙ ap some (omega arith))
