-- ===== src/Net/Tests.antt =====
-- Runs of the network code.
use naw_os.Base.{ℕ, ◌≡◌, refl, arith, true, List, [], ◌∷◌, ◌++◌, some}
use naw_os.Net.Packet.{
  udp_send_packet, ethernet_receive_frame, deliver, ipv4_checksum, ipv4_header, udp_header,
}
use naw_os.Net.Roundtrip.{ethernet_receive_frame-udp_send_packet}
use naw_os.Net.Checksum.{ipv4_checksum-ipv4_header}

ipv4_checksum-ipv4_header_example :
    ipv4_checksum (
      ipv4_header
        (192 ∷ 168 ∷ 0 ∷ 2 ∷ [])
        (192 ∷ 168 ∷ 0 ∷ 255 ∷ [])
        33
        (ipv4_checksum (ipv4_header (192 ∷ 168 ∷ 0 ∷ 2 ∷ []) (192 ∷ 168 ∷ 0 ∷ 255 ∷ []) 33 0)))
    ≡ 0
ipv4_checksum-ipv4_header_example =
    ipv4_checksum-ipv4_header 192 168 0 2 192 168 0 255 33 (omega arith) (omega arith) (omega arith)
      (omega arith) (omega arith) (omega arith) (omega arith) (omega arith) (omega arith)

-- "hello" from port 5000 to port 5000
abbrev hello : List ℕ
hello = 104 ∷ 101 ∷ 108 ∷ 108 ∷ 111 ∷ []

abbrev hello_frame : List ℕ
hello_frame =
    (0xFF ∷ 0xFF ∷ 0xFF ∷ 0xFF ∷ 0xFF ∷ 0xFF ∷ (1 ∷ 2 ∷ 3 ∷ 4 ∷ 5 ∷ 6 ∷ []))
    ++ (0x08
          ∷ 0x00
          ∷ ipv4_header (192 ∷ 168 ∷ 0 ∷ 2 ∷ []) (255 ∷ 255 ∷ 255 ∷ 255 ∷ []) 33 (
              ipv4_checksum
                (ipv4_header (192 ∷ 168 ∷ 0 ∷ 2 ∷ []) (255 ∷ 255 ∷ 255 ∷ 255 ∷ []) 33 0))
        ++ (udp_header 5000 5000 13 ++ hello))

hello_sent :
    udp_send_packet true
      (1 ∷ 2 ∷ 3 ∷ 4 ∷ 5 ∷ 6 ∷ [])
      (192 ∷ 168 ∷ 0 ∷ 2 ∷ [])
      (255 ∷ 255 ∷ 255 ∷ 255 ∷ [])
      5000
      5000
      hello
    ≡ some hello_frame
unfolding udp_send_packet
hello_sent = refl

ethernet_receive_frame-udp_send_packet_example :
    ethernet_receive_frame hello_frame ≡ deliver (192 ∷ 168 ∷ 0 ∷ 2 ∷ []) 5000 5000 hello
ethernet_receive_frame-udp_send_packet_example =
    ethernet_receive_frame-udp_send_packet 1 2 3 4 5 6 192 168 0 2 255 255 255 255 5000 5000 hello
      hello_frame (omega arith) (omega arith) hello_sent
