-- ===== src/Ata/Tests.antt =====
-- A drive that takes its time, and no drive at all.
use naw_os.Base.{
  ℕ, ◌≡◌, refl, Bool, true, false, ◌&&◌, Bool-cases, inl, inr, [], ◌∷◌, ltb, ◌==◌, if◌then◌else◌,
  replicate, arith,
}
use naw_os.Base.Int.{pos, negsuc}
use naw_os.Ata.{Ports, disk_read_sector, disk_write_sector}
use naw_os.Ata.Drive.{
  IsDrive, View, Phase, idle, sending, receiving, bit, requests, polled, address, after_word,
  accepted,
}
use naw_os.Ata.Sector.{disk_read_sector-stuck}

-- BSY; DRDY and DRQ; DRDY
abbrev status_of : View → ℕ
status_of v = if ltb 0 v.busy then 128 else (if (v.late == 0) && requests v.phase then 72 else 64)

abbrev obey : ℕ → View → View
obey code v =
    if code == 32
    then record v { busy = 2; late = 3; phase = sending (v.content (address v)) }
    else (if code == 48
        then record v { busy = 2; late = 3; phase = receiving (address v) 255 [] }
        else record v { busy = 2; late = 3 })

abbrev set_register : ℕ → ℕ → View → View
set_register port n v =
    if port == 498
    then record v { count = n }
    else (if port == 499
        then record v { low = n }
        else (if port == 500
            then record v { middle = n }
            else (if port == 501
                then record v { high = n }
                else (if port == 502 then record v { device = n } else obey n v))))

abbrev word_in : Phase → View → ℕ × View
word_in (sending (w ∷ words)) v = (w, record v { phase = after_word words })
word_in (sending []) v = (0, v)
word_in idle v = (0, v)
word_in (receiving sector missing words) v = (0, v)

abbrev word_out : Phase → ℕ → View → View
word_out (receiving sector missing words) w v = accepted sector missing words w v
word_out idle w v = v
word_out (sending words) w v = v

abbrev slow_ports : Ports
slow_ports = record {
  Machine = View;
  inb = λ port v. (status_of v, polled v);
  outb = set_register;
  inw = λ port v. word_in v.phase v;
  outw = λ port w v. word_out v.phase w v;
}

slow_ports-IsDrive : IsDrive slow_ports
slow_ports-IsDrive = record {
  view = λ v. v;
  busy_for = λ v. 2;
  late_for = λ v. 3;
  busy_in_time = λ v. omega arith;
  late_in_time = λ v. omega arith;
  status_busy = λ v. elim (Bool-cases (ltb 0 v.busy)) [
    | inl e ↦ rw e refl
    | inr e ↦ rw e (seen ((v.late == 0) && requests v.phase))
  ];
  status_request = λ v b. rw b (asked ((v.late == 0) && requests v.phase));
  status_error = λ v b. rw b (fine ((v.late == 0) && requests v.phase));
  status_polled = λ v. refl;
  set_count = λ n v i h. refl;
  set_low = λ n v i h. refl;
  set_middle = λ n v i h. refl;
  set_high = λ n v i h. refl;
  set_device = λ n v i h. refl;
  read_sectors = λ v i one lba. refl;
  write_sectors = λ v i one lba. refl;
  flush_cache = λ v i. refl;
  send_word = λ w words v r q. rw q (refl, refl);
  receive_word = λ sector missing w words v r q h. rw q refl;
}
  where
    seen : (c : Bool) → bit 7 (if c then 72 else 64) ≡ false
    seen true = refl
    seen false = refl

    asked : (c : Bool) → bit 3 (if c then 72 else 64) ≡ c
    asked true = refl
    asked false = refl

    fine : (c : Bool) → bit 0 (if c then 72 else 64) ≡ false
    fine true = refl
    fine false = refl

abbrev waiting : View
waiting = record {
  count = 0;
  low = 0;
  middle = 0;
  high = 0;
  device = 0;
  busy = 0;
  late = 0;
  phase = idle;
  content = λ k. replicate 256 0;
}

-- no drive: the lines of the bus read as ones
abbrev no_drive : Ports
no_drive = record {
  Machine = ℕ;
  inb = λ port s. (255, s);
  outb = λ port v s. s;
  inw = λ port s. (65535, s);
  outw = λ port w s. s;
}

disk_read_sector-stuck_example :
    ((disk_read_sector no_drive (pos 1) (replicate 512 7) 0).0 ≡ negsuc 1)
    × ((disk_read_sector no_drive (pos 1) (replicate 512 7) 0).1 ≡ replicate 512 7)
    × ((disk_write_sector no_drive (pos 1) (replicate 512 7) 0).0 ≡ pos 0)
disk_read_sector-stuck_example =
    disk_read_sector-stuck no_drive (λ s. refl) 1 (replicate 512 7) 0 (omega arith)
