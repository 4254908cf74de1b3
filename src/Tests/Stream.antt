-- ===== src/Tests/Stream.antt =====
-- Bytes in the client's socket, on the concrete machine.
use huc.Base.{◌≡◌, refl, [], ◌∷◌, ◌++◌, arith}
use huc.Msg.{Header, header_bytes}
use huc.Msg.Laws.{Fits}
use huc.Hucdev.Server.Stream.{
  Message, IsWhole, wire, handle_streams, deliver, deliver_all, leaving, handle_streams-deliver_all,
}
use huc.Hucdev.Server.Stream.Late.{at_rest, resting, handle_arrivals, late_payload, split_message}
use huc.Tests.Data.{two_cpus, idle_device, six_header, six_header-Fits, six_bytes}

abbrev six_message : Message
six_message = record { header = six_header; payload = six_bytes; junk = 0 }

six_message-IsWhole : IsWhole six_message
six_message-IsWhole = record { fits = six_header-Fits; whole = refl }

-- A RESET, as reset.c sends it.
abbrev reset_message : Message
reset_message = record {
  header = record { version = 1; type = 17; payload_len = 4 };
  payload = 7 ∷ 7 ∷ 7 ∷ 7 ∷ [];
  junk = 0;
}

reset_message-IsWhole : IsWhole reset_message
reset_message-IsWhole = record {
  fits = record { version_fits = omega arith; type_fits = omega arith; len_fits = omega arith };
  whole = refl;
}

-- A program, a RESET, and the first byte of what comes next.
handle_streams-deliver_all_example :
    handle_streams two_cpus 3 idle_device
      (wire (six_message ∷ reset_message ∷ []) ++ 1 ∷ [])
      (0 ∷ 0 ∷ [])
    ≡ leaving two_cpus 3
        (1 ∷ [])
        (deliver_all two_cpus 3 idle_device (six_message ∷ reset_message ∷ []))
handle_streams-deliver_all_example =
    handle_streams-deliver_all two_cpus 3 idle_device (six_message ∷ reset_message ∷ []) (1 ∷ [])
      (six_message-IsWhole, (reset_message-IsWhole, tt))

-- A program of ten bytes of which two come first; the other eight read as a RESET.
abbrev ten_header : Header
ten_header = record { version = 1; type = 1; payload_len = 10 }

ten_header-Fits : Fits ten_header
ten_header-Fits = record {
  version_fits = omega arith;
  type_fits = omega arith;
  len_fits = omega arith;
}

late_payload_example :
    handle_arrivals two_cpus 3 idle_device (at_rest []) (
      record { bytes = header_bytes ten_header ++ 5 ∷ 6 ∷ []; junk = 0 }
      ∷ record { bytes = header_bytes reset_message.header ++ 7 ∷ 7 ∷ 7 ∷ 7 ∷ []; junk = 0 }
      ∷ [])
    ≡ resting two_cpus 3 (
        deliver_all two_cpus 3 idle_device
          (record { header = ten_header; payload = 5 ∷ 6 ∷ []; junk = 0 } ∷ reset_message ∷ []))
unfolding header_bytes
late_payload_example =
    late_payload two_cpus 3 idle_device ten_header (5 ∷ 6 ∷ []) 0 reset_message ten_header-Fits
      reset_message-IsWhole (omega arith) refl

-- The two sends of injectByteCode, one after the other.
split_message_example :
    handle_arrivals two_cpus 3 idle_device (at_rest []) (
      record { bytes = header_bytes six_header; junk = 0 }
      ∷ record { bytes = six_bytes; junk = 9 }
      ∷ [])
    ≡ resting two_cpus 3 (deliver two_cpus 3 idle_device six_message)
split_message_example =
    split_message two_cpus 3 idle_device six_message 9 six_message-IsWhole (omega arith)
