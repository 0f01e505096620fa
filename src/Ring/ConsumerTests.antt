-- ===== src/Ring/ConsumerTests.antt =====
-- The consumer's side and the file of the ring on concrete inputs.
use lumbre_ext.Common.{take, ◌%◌, ◌<◌, ◌≡◌, refl, arith, [], ◌∷◌}
use lumbre_ext.Memory.{store, le_bytes}
use lumbre_ext.Ring.{write_seen, put_padding, put_message}
use lumbre_ext.Ring.Refine.{Holds}
use lumbre_ext.Ring.Reader.{read_msg_at, advance, read_msg_at-Holds, advance-Holds}
use lumbre_ext.Ring.Drain.{drain, publish, drain-Holds}
use lumbre_ext.Ring.Contents.{Contents, Contents-prop}
use lumbre_ext.Ring.Layout.{header_members, size_of, file_bytes}
use lumbre_ext.Ring.Mapping.{attach, attach-publish}
use lumbre_ext.Ring.Channel.{
  Channel, here, next, produce, consume, produced, consumed, IsFaithful, Reach-IsFaithful,
}
use lumbre_ext.Ring.Samples.{empty_at, empty_at-Holds, three, one_message, one_message-Holds}

read_msg_at-Holds_run : read_msg_at one_message (one_message.header.read_pos % 16) ≡ three
unfolding write_seen put_message
read_msg_at-Holds_run = read_msg_at-Holds one_message three [] one_message-Holds

advance-Holds_example : Holds (advance one_message) []
advance-Holds_example = advance-Holds one_message three [] one_message-Holds

drain-Holds_example :
    ((drain one_message 1 one_message.header.read_pos).0 ≡ three ∷ [])
    × Holds (publish one_message (drain one_message 1 one_message.header.read_pos).1) []
unfolding write_seen put_message
drain-Holds_example = drain-Holds one_message (three ∷ []) [] one_message-Holds (omega arith)

Contents-prop_run : IsProp (Contents one_message)
Contents-prop_run = Contents-prop one_message

-- The assertions on the header's size and its atomic fields.
header_size_run : size_of header_members ≡ 64
header_size_run = refl

aligned_run :
    (size_of (take 4 header_members) % 8 ≡ 0)
    × (size_of (take 5 header_members) % 8 ≡ 0)
    × (size_of (take 6 header_members) % 8 ≡ 0)
aligned_run = (refl, refl, refl)

attach-publish_run :
    attach (store (file_bytes one_message) 24 (le_bytes 8 7))
    ≡ publish (attach (file_bytes one_message)) 7
attach-publish_run = attach-publish (file_bytes one_message) 7 (omega arith)

abbrev quiet : Channel
quiet = record { ring = empty_at 12; sent = []; received = [] }

abbrev written_once : Channel
written_once = produced quiet 12 three 3

written_unread : written_once.ring.header.read_pos < written_once.ring.header.write_pos
unfolding write_seen put_message put_padding
written_unread = omega arith

Reach-IsFaithful_example : IsFaithful (consumed written_once)
Reach-IsFaithful_example = Reach-IsFaithful (empty_at-Holds 12) refl (
    next (next here (produce quiet 12 three 3 (omega arith) (omega arith)))
      (consume written_once written_unread))
