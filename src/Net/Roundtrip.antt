-- ===== src/Net/Roundtrip.antt =====
-- net/udp.c, net/ipv4.c and net/ethernet.c: the reception of a frame that was sent.
use naw_os.Base.{
  ℕ, ◌+◌, ◌-◌, ◌*◌, ◌/◌, ◌%◌, ◌≤◌, ◌<◌, ◌≡◌, ◌∙◌, refl, ap, ap₂, sym, true, false, ◌||◌, not,
  Bool-cases, inl, inr, some, List, [], ◌∷◌, ◌++◌, ltb, ◌==◌, if◌then◌else◌, length, take, take_all,
  u16, arith,
}
use naw_os.Net.Packet.{
  ipv4_read_be16, ipv4_write_be16, ipv4_checksum, ipv4_header, udp_header, udp_send_packet, deliver,
  udp_receive_packet, ipv4_receive_packet, ethernet_receive_frame,
}

read-write : (v : ℕ) (tail : List ℕ) → v < 65536 → ipv4_read_be16 (ipv4_write_be16 v ++ tail) ≡ v
unfolding ipv4_read_be16 ipv4_write_be16
read-write v tail h = omega arith

udp_receive_packet-sent :
    (src dst : List ℕ) (s d : ℕ) (body : List ℕ)
    → s < 65536
    → d < 65536
    → length body ≤ 1472
    → udp_receive_packet src dst (udp_header s d (u16 (8 + length body)) ++ body)
      ≡ deliver src s d body
unfolding udp_receive_packet udp_header ipv4_write_be16 ipv4_read_be16
udp_receive_packet-sent src dst s d body hs hd small = rw few found
  where
    few : ltb (length (udp_header s d (u16 (8 + length body)) ++ body)) 8 ≡ false
    few = ground arith

    written : ℕ
    written = u16 (8 + length body) / 256 % 256 * 256 + u16 (8 + length body) % 256

    len : ℕ
    len = length (udp_header s d (u16 (8 + length body)) ++ body)

    udp_len : ℕ
    udp_len = if ltb written 8 || ltb len written then u16 len else written

    found :
        deliver src
          (s / 256 % 256 * 256 + s % 256)
          (d / 256 % 256 * 256 + d % 256)
          (take (udp_len - 8) body)
        ≡ deliver src s d body
    found =
        ap₂ (λ x y. deliver src x y (take (udp_len - 8) body)) {x = s / 256 % 256 * 256 + s % 256}
          {y = s} {u = d / 256 % 256 * 256 + d % 256} {v = d} (omega arith) (omega arith)
        ∙ ap (deliver src s d) (take_all (udp_len - 8) body (ground arith))

ipv4_receive_packet-sent :
    (a b c d e f g h : ℕ) (checksum : ℕ) (packet : List ℕ)
    → 8 ≤ length packet
    → length packet ≤ 1480
    → ipv4_receive_packet (
        ipv4_header (a ∷ b ∷ c ∷ d ∷ []) (e ∷ f ∷ g ∷ h ∷ []) (20 + length packet) checksum
        ++ packet)
      ≡ udp_receive_packet (a ∷ b ∷ c ∷ d ∷ []) (e ∷ f ∷ g ∷ h ∷ []) packet
unfolding ipv4_receive_packet ipv4_header ipv4_write_be16 ipv4_read_be16
ipv4_receive_packet-sent a b c d e f g h checksum packet big small =
    rw (known, header_fits, long_enough, udp)
      (ap (udp_receive_packet (a ∷ b ∷ c ∷ d ∷ []) (e ∷ f ∷ g ∷ h ∷ []))
        (take_all (total_len - 20) packet (ground arith)))
  where
    sent : List ℕ
    sent =
        ipv4_header (a ∷ b ∷ c ∷ d ∷ []) (e ∷ f ∷ g ∷ h ∷ []) (20 + length packet) checksum
        ++ packet

    written : ℕ
    written = (20 + length packet) / 256 % 256 * 256 + (20 + length packet) % 256

    total_len : ℕ
    total_len = if ltb (length sent) written then u16 (length sent) else written

    known : (ltb (length sent) 20 || not (69 / 16 == 4)) ≡ false
    known = ground arith

    header_fits : (ltb (69 % 16 * 4) 20 || ltb (length sent) (69 % 16 * 4)) ≡ false
    header_fits = ground arith

    long_enough : ltb written (69 % 16 * 4) ≡ false
    long_enough = ground arith

    udp : (not (17 == 17) || ltb total_len (69 % 16 * 4 + 8)) ≡ false
    udp = ground arith

ethernet_receive_frame-ip :
    (m1 m2 m3 m4 m5 m6 : ℕ) (packet : List ℕ)
    → ethernet_receive_frame (
        (0xFF ∷ 0xFF ∷ 0xFF ∷ 0xFF ∷ 0xFF ∷ 0xFF ∷ (m1 ∷ m2 ∷ m3 ∷ m4 ∷ m5 ∷ m6 ∷ []))
        ++ (0x08 ∷ 0x00 ∷ packet))
      ≡ ipv4_receive_packet packet
unfolding ethernet_receive_frame ipv4_read_be16
ethernet_receive_frame-ip m1 m2 m3 m4 m5 m6 packet = rw long refl
  where
    long :
        ltb
          (length (
            (0xFF ∷ 0xFF ∷ 0xFF ∷ 0xFF ∷ 0xFF ∷ 0xFF ∷ (m1 ∷ m2 ∷ m3 ∷ m4 ∷ m5 ∷ m6 ∷ []))
            ++ (0x08 ∷ 0x00 ∷ packet)))
          14
        ≡ false
    long = ground arith

length-udp : (s t n : ℕ) (body : List ℕ) → length (udp_header s t n ++ body) ≡ 8 + length body
unfolding udp_header ipv4_write_be16
length-udp s t n body = omega arith

-- When a datagram from and to addresses of four bytes, with a hardware address of six and ports below
-- 65536, gives a frame, receiving the frame delivers the payload with the address and the ports that it
-- was sent with.
pub ethernet_receive_frame-udp_send_packet :
    (m1 m2 m3 m4 m5 m6 a b c d e f g h : ℕ) (s t : ℕ) (body frame : List ℕ)
    → s < 65536
    → t < 65536
    → udp_send_packet true
        (m1 ∷ m2 ∷ m3 ∷ m4 ∷ m5 ∷ m6 ∷ [])
        (a ∷ b ∷ c ∷ d ∷ [])
        (e ∷ f ∷ g ∷ h ∷ [])
        s
        t
        body
      ≡ some frame
    → ethernet_receive_frame frame ≡ deliver (a ∷ b ∷ c ∷ d ∷ []) s t body
unfolding udp_send_packet
ethernet_receive_frame-udp_send_packet m1 m2 m3 m4 m5 m6 a b c d e f g h s t body frame hs ht sent =
    elim (Bool-cases (ltb 1472 (length body))) [
      | inl big ↦ absurd (cc (rw (big, udp_send_packet) at sent))
      | inr small ↦
          let fits = length-udp s t (u16 (8 + length body)) body in
          ap ethernet_receive_frame (sym (cc (rw (small, udp_send_packet) at sent)))
          ∙ ethernet_receive_frame-ip m1 m2 m3 m4 m5 m6 _
          ∙ ap
              (λ n. ipv4_receive_packet (
                ipv4_header (a ∷ b ∷ c ∷ d ∷ []) (e ∷ f ∷ g ∷ h ∷ []) n
                  (ipv4_checksum (ipv4_header (a ∷ b ∷ c ∷ d ∷ []) (e ∷ f ∷ g ∷ h ∷ []) n 0))
                ++ (udp_header s t (u16 (8 + length body)) ++ body)))
              {x = u16 (20 + 8 + length body)}
              {y = 20 + length (udp_header s t (u16 (8 + length body)) ++ body)}
              (ground (arith, fits, small))
          ∙ ipv4_receive_packet-sent a b c d e f g h _
              (udp_header s t (u16 (8 + length body)) ++ body) (ground (arith, fits))
              (ground (arith, fits, small))
          ∙ udp_receive_packet-sent (a ∷ b ∷ c ∷ d ∷ []) (e ∷ f ∷ g ∷ h ∷ []) s t body hs ht
              (ground (arith, small))
    ]
