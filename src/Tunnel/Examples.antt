-- ===== src/Tunnel/Examples.antt =====
-- A message and a response through the tunnel, and a response whose last chunk arrives twice.
use quickworks.Base.{◌≡◌, refl, none, List, [], ◌∷◌}
use quickworks.Tunnel.Messages.{Streams, is_open, write_web_socket_frames, on_frames}
use quickworks.Tunnel.Reassembly.{delivered, write_web_socket_frames-whole}
use quickworks.Tunnel.Responses.{Read, read, no_error, end_of_file}
use quickworks.Tunnel.Delivery.{sent_again}

abbrev one_stream : Streams
one_stream = record { open_ids = "s1" ∷ []; bodies = [] }

write_web_socket_frames-whole_example :
    on_frames none (write_web_socket_frames "s1" "text" (104 ∷ 105 ∷ [])) one_stream
    ≡ delivered "s1" "text" (104 ∷ 105 ∷ []) one_stream
unfolding is_open
write_web_socket_frames-whole_example =
    write_web_socket_frames-whole "s1" "text" (104 ∷ 105 ∷ []) one_stream refl

abbrev chunked : List Read
chunked = read (1 ∷ 2 ∷ []) no_error ∷ read (3 ∷ []) no_error ∷ read [] end_of_file ∷ []

abbrev sized : List Read
sized = read (1 ∷ 2 ∷ []) no_error ∷ read (3 ∷ []) end_of_file ∷ []

-- The end comes alone: byte 3 is sent again.
sent_again_test : sent_again [] chunked ≡ 3 ∷ []
sent_again_test = refl

sent_once_test : sent_again [] sized ≡ []
sent_once_test = refl
