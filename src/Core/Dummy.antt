-- ===== src/Core/Dummy.antt =====
-- pkg/core/nib.go: a nib that sends nothing. Times are nanoseconds since the epoch.
use encarno.Base.{
  ℕ, ◌+◌, ◌-◌, ◌*◌, ◌/◌, ◌%◌, ◌^◌, none, some, [], ◌++◌, if◌then◌else◌, u16, u64, slt,
}
use encarno.Base.Bytes.{codes}
use encarno.Base.Decimal.{itoa}
use encarno.Base.Int.{ℤ, pos, negsuc}
use encarno.Core.Input.{PayloadItem}
use encarno.Core.Output.{OutputItem}

-- `uint64` of an int.
abbrev pub to_uint64 : ℤ → ℕ
to_uint64 (pos n) = u64 n
to_uint64 (negsuc n) = 2 ^ 64 - 1 - n % 2 ^ 64

-- `DummyNib.Punch`, from what `time.Now` gives before and after it sleeps.
unfoldable pub dummy_punch : {Re : Type 0} → ℕ → ℕ → PayloadItem Re → OutputItem
dummy_punch now woken item =
    let unix = now / 10 ^ 9 in
    let duration = unix % 100 * 1000 in
    let elapsed = u64 (woken + (2 ^ 64 - u64 now)) in
    record {
      start_time = now;
      start_ts = 0;
      status = u16 ((1 + unix % 5) * 100);
      error = if slt (duration * 10) elapsed then some (codes "timeout occured") else none;
      error_str = [];
      error_str_idx = 0;
      concurrency = 0;
      elapsed = elapsed;
      connect_time = 0;
      sent_time = 0;
      first_byte_time = 0;
      read_time = 0;
      worker = 0;
      label = codes "label#" ++ itoa (pos (unix % 3));
      label_idx = 0;
      sent_bytes_count = to_uint64 item.payload_len;
      resp_bytes_count = to_uint64 item.payload_len;
      req_bytes = item.payload;
      resp_bytes = item.payload;
    }
