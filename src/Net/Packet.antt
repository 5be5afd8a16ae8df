-- ===== src/Net/Packet.antt =====
-- net/udp.c, net/ipv4.c and net/ethernet.c. A packet is the list of its bytes, and its length is the
-- argument `len`. What a datagram leads to is the result: `none` when it is dropped.
use naw_os.Base.{
  ℕ, zero, suc, ◌+◌, ◌-◌, ◌*◌, ◌/◌, ◌%◌, Bool, ◌&&◌, ◌||◌, not, Option, none, some, List, [], ◌∷◌,
  ◌++◌, ltb, ◌==◌, if◌then◌else◌, length, get_or, take, drop, u16, u32,
}

unfoldable pub ipv4_read_be16 : List ℕ → ℕ
ipv4_read_be16 value = get_or value 0 0 * 256 + get_or value 1 0

-- the two bytes that `ipv4_write_be16` writes
unfoldable pub ipv4_write_be16 : ℕ → List ℕ
ipv4_write_be16 value = (value / 256 % 256) ∷ (value % 256) ∷ []

-- the loop over the words, from a sum on
unfoldable pub sum_words : ℕ → List ℕ → ℕ
sum_words sum [] = sum
sum_words sum (x ∷ []) = u32 (sum + x * 256)
sum_words sum (x ∷ y ∷ body) = sum_words (u32 (sum + (x * 256 + y))) body

-- `while (sum >> 16)`, on fuel
unfoldable pub fold_carries : ℕ → ℕ → ℕ
fold_carries zero sum = sum
fold_carries (suc fuel) sum =
    let next = fold_carries fuel (sum % 65536 + sum / 65536) in
    if sum / 65536 == 0 then sum else next

unfoldable pub ipv4_checksum : List ℕ → ℕ
unfolding sum_words fold_carries
ipv4_checksum body = 65535 - fold_carries 3 (sum_words 0 body)

-- The header with the checksum field given.
unfoldable pub ipv4_header : List ℕ → List ℕ → ℕ → ℕ → List ℕ
ipv4_header src_ip dest_ip total_len checksum =
    0x45 ∷ 0x00 ∷ ipv4_write_be16 total_len
    ++ (0 ∷ 0 ∷ 0 ∷ 0 ∷ 64 ∷ 17 ∷ (ipv4_write_be16 checksum ++ (src_ip ++ dest_ip)))

unfoldable pub udp_header : ℕ → ℕ → ℕ → List ℕ
udp_header src_port dst_port udp_len =
    ipv4_write_be16 src_port
    ++ (ipv4_write_be16 dst_port ++ (ipv4_write_be16 udp_len ++ ipv4_write_be16 0))

-- The frame that `udp_send_packet` gives to the network card; `none` when it gives none.
unfoldable pub udp_send_packet : Bool → List ℕ → List ℕ → List ℕ → ℕ → ℕ → List ℕ → Option (List ℕ)
udp_send_packet ready naw_mac_address src_ip dest_ip src_port dst_port body =
    let total_len = u16 (20 + 8 + length body) in
    let checksum = ipv4_checksum (ipv4_header src_ip dest_ip total_len 0) in
    if not ready || ltb 1472 (length body)
    then none
    else some (
        (0xFF ∷ 0xFF ∷ 0xFF ∷ 0xFF ∷ 0xFF ∷ 0xFF ∷ naw_mac_address)
        ++ (0x08 ∷ 0x00 ∷ ipv4_header src_ip dest_ip total_len checksum
            ++ (udp_header src_port dst_port (u16 (8 + length body)) ++ body)))

-- the calls that `udp_receive_packet` ends in
pub data Delivery : Type 0 where
  dhcp_packet : List ℕ → Delivery
  text_packet : List ℕ → List ℕ → Delivery

abbrev pub net_text_port : ℕ
net_text_port = 5000

unfoldable pub deliver : List ℕ → ℕ → ℕ → List ℕ → Option Delivery
deliver src_ip src_port dst_port payload =
    if (src_port == 67) && (dst_port == 68)
    then some (dhcp_packet payload)
    else (if dst_port == net_text_port then some (text_packet src_ip payload) else none)

unfoldable pub udp_receive_packet : List ℕ → List ℕ → List ℕ → Option Delivery
udp_receive_packet src_ip dest_ip packet =
    let len = length packet in
    let written = ipv4_read_be16 (drop 4 packet) in
    let udp_len = if ltb written 8 || ltb len written then u16 len else written in
    if ltb len 8
    then none
    else deliver src_ip (ipv4_read_be16 packet) (ipv4_read_be16 (drop 2 packet))
        (take (udp_len - 8) (drop 8 packet))

unfoldable pub ipv4_receive_packet : List ℕ → Option Delivery
ipv4_receive_packet packet =
    let len = length packet in
    let ihl = get_or packet 0 0 % 16 * 4 in
    let written = ipv4_read_be16 (drop 2 packet) in
    let total_len = if ltb len written then u16 len else written in
    if ltb len 20 || not (get_or packet 0 0 / 16 == 4)
    then none
    else (if ltb ihl 20 || ltb len ihl
        then none
        else (if ltb written ihl
            then none
            else (if not (get_or packet 9 0 == 17) || ltb total_len (ihl + 8)
                then none
                else udp_receive_packet (take 4 (drop 12 packet)) (take 4 (drop 16 packet))
                    (take (total_len - ihl) (drop ihl packet)))))

unfoldable pub ethernet_receive_frame : List ℕ → Option Delivery
ethernet_receive_frame frame =
    if ltb (length frame) 14
    then none
    else (if not (ipv4_read_be16 (drop 12 frame) == 0x0800)
        then none
        else ipv4_receive_packet (drop 14 frame))
