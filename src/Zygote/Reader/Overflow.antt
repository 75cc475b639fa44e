-- ===== src/Zygote/Reader/Overflow.antt =====
-- The output cap of one request, when a frame passes it.
use sand_box_rust.Base.{
  ℕ, ◌+◌, ◌<◌, ◌≡◌, refl, sym, ◌∙◌, true, List, [], ◌∷◌, ◌++◌, none, some, inl, inr, ◌==◌,
  if◌then◌else◌, length, length-append, arith, Option-cases, neg,
}
use sand_box_rust.Wire.{msg_stdout, msg_kill, encode_frame}
use sand_box_rust.Utf8.{from_utf8, from_utf8_lossy, from_utf8_lossy-from_utf8}
use sand_box_rust.Zygote.Pending.{Pending, World, lookup, remove, send}
use sand_box_rust.Zygote.Pending.Laws.{remove-insert, lookup-remove_self, IsMap}
use sand_box_rust.Zygote.Reader.{
  deliver, deliver_to, on_message, over_limit, is_output, usize_max, limit_out, limit_message,
}
use sand_box_rust.Zygote.Reader.Bounds.{kept}
use sand_box_rust.Zygote.Reader.Requests.{deliver_found}

-- Both branches of the conversion give the lossy decoding.
pub limit_out-from_utf8_lossy : (bs : List ℕ) → limit_out bs ≡ from_utf8_lossy bs
unfolding limit_out
limit_out-from_utf8_lossy bs = elim (Option-cases (from_utf8 bs)) [
  | inl bad ↦ rw (bad, limit_out)
  | inr (s, good) ↦
      let (same, lossy) = from_utf8_lossy-from_utf8 bs s good in
      rw (good, limit_out) (same ∙ sym lossy)
]

-- The stdout of the entry with the frame's payload.
abbrev pub stdout_with : ℕ → List ℕ → Pending → List ℕ
stdout_with mtype payload e = if mtype == msg_stdout then e.out ++ payload else e.out

over_limit_step :
    (limit mtype k channel : ℕ) (payload : List ℕ) (e : Pending) (w : World)
    → limit < usize_max
    → is_output mtype ≡ true
    → e.tx ≡ some channel
    → limit < kept e + length payload
    → deliver_to limit mtype k payload e w ≡ record w {
      pending = remove k w.pending;
      replies =
          w.replies
          ++ (
            channel,
            record {
              stdout = from_utf8_lossy (stdout_with mtype payload e);
              stderr = limit_message limit;
              exit_code = neg 1;
            },
          )
            ∷ [];
      written = w.written ++ encode_frame msg_kill k [] ∷ [];
    }
unfolding deliver_to on_message over_limit send
over_limit_step limit mtype k channel payload e w small out live big = ground (
  arith,
  remove-insert k (record e { out = e.out ++ payload }) w.pending,
  remove-insert k (record e { err = e.err ++ payload }) w.pending,
  limit_out-from_utf8_lossy (e.out ++ payload),
  limit_out-from_utf8_lossy e.out,
  length-append e.out payload,
  length-append e.err payload,
)

-- For a cap below the largest `usize` and a map with one entry for each key: the output frame
-- that takes a waiting request over the cap ends it. Its entry is removed, its caller is sent the
-- stdout so far and the message that names the cap, and the worker is sent MSG_KILL for it.
pub deliver_over_limit :
    (limit mtype k channel : ℕ) (payload : List ℕ) (e : Pending) (w : World)
    → limit < usize_max
    → is_output mtype ≡ true
    → IsMap w.pending
    → lookup k w.pending ≡ some e
    → e.tx ≡ some channel
    → limit < kept e + length payload
    → let v = deliver limit mtype k payload w in
      (lookup k v.pending ≡ none)
      × (v.written ≡ w.written ++ encode_frame msg_kill k [] ∷ [])
      × (v.replies
          ≡ w.replies
            ++ (
              channel,
              record {
                stdout = from_utf8_lossy (stdout_with mtype payload e);
                stderr = limit_message limit;
                exit_code = neg 1;
              },
            )
              ∷ [])
deliver_over_limit limit mtype k channel payload e w small out map found live big =
    rw
      (
        deliver_found limit mtype k payload w e found,
        over_limit_step limit mtype k channel payload e w small out live big,
      )
      (lookup-remove_self k w.pending map, refl, refl)
