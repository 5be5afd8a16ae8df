-- ===== src/Ata/Wait.antt =====
-- drivers/ata/ata.c: what `ata_wait` and the start of a command do to a drive.
use naw_os.Base.{
  ℕ, zero, suc, ◌+◌, ◌-◌, ◌/◌, ◌%◌, ◌<◌, ◌≡◌, ◌∙◌, refl, sym, ap, ap₂, subst, Bool, true, false,
  ◌&&◌, Bool-cases, Option-cases, inl, inr, some, ltb, ◌==◌, if◌then◌else◌, u8, arith,
}
use naw_os.Base.Int.{pos, negsuc}
use naw_os.NawFs.Device.{disk_max_lba}
use naw_os.Ata.{Ports, has_data, has_error, wait_busy, wait_data, ata_wait, command, start}
use naw_os.Ata.Drive.{IsDrive, View, IsIdle, bit, requests, polled, address}

polled-busy : (v : View) → 0 < v.busy → polled v ≡ record v { busy = v.busy - 1 }
polled-busy v h = ap (λ l. record v { busy = v.busy - 1; late = l }) (ground arith)

polled-calm : (v : View) → v.busy ≡ 0 → polled v ≡ record v { busy = 0; late = v.late - 1 }
polled-calm v h =
    ap₂ (λ b l. record v { busy = b; late = l }) {x = v.busy - 1} {y = 0} (omega arith)
      (ground arith)

has_error-bit : (n : ℕ) → has_error n ≡ bit 0 n
has_error-bit n = ap (λ x. x % 2 == 1) {x = n} {y = n / 1} (omega arith)

-- The drive before the command itself is written: its registers name the sector and a count of 1.
pub record IsAddressed (lba : ℕ) (v s : View) : Type 0 where
  pub waits : IsIdle s
  pub one : s.count ≡ 1
  pub lba_mode : s.device / 16 ≡ 14
  pub named : address s ≡ lba
  pub same : s.content ≡ v.content

equal-IsIdle : {v w : View} → w ≡ v → IsIdle v → IsIdle w
equal-IsIdle e i = subst IsIdle (sym e) i

module _ (p : Ports) (drive : IsDrive p) where
  open p use {Machine, inb, outb}
  open drive use {
    view, busy_for, late_for, busy_in_time, late_in_time, status_busy, status_request, status_error,
    status_polled, set_count, set_low, set_middle, set_high, set_device,
  }

  wait_busy-calm :
      (timeout : ℕ) (s : Machine)
      → (view s).busy < timeout
      → ((wait_busy p timeout s).0 ≡ true)
        × (view (wait_busy p timeout s).1 ≡ record (view s) { busy = 0; late = (view s).late - 1 })
  unfolding wait_busy
  wait_busy-calm zero s h = absurd (omega arith)
  wait_busy-calm (suc timeout) s h = elim (Bool-cases (ltb 0 (view s).busy)) [
    | inr e ↦
        rw (status_busy s ∙ e, wait_busy)
          (refl, status_polled s ∙ polled-calm (view s) (ground arith))
    | inl e ↦
        let step = status_polled s ∙ polled-busy (view s) (ground arith) in
        let (done, after) =
          wait_busy-calm timeout (inb 503 s).1
            (subst (λ v. View.busy v < timeout) (sym step) (ground arith)) in
        rw (status_busy s ∙ e, wait_busy)
          (done, after ∙ ap (λ (v : View). record v { busy = 0; late = View.late v - 1 }) step)
  ]

  wait_data-ready :
      (timeout : ℕ) (s : Machine)
      → (view s).busy ≡ 0
      → (view s).late < timeout
      → requests (view s).phase ≡ true
      → (status : ℕ) × ((wait_data p timeout s).0 ≡ some status)
        × (bit 0 status ≡ false)
        × (view (wait_data p timeout s).1 ≡ record (view s) { busy = 0; late = 0 })
  unfolding wait_data
  wait_data-ready zero s b h q = absurd (omega arith)
  wait_data-ready (suc timeout) s b h q = elim (Bool-cases ((view s).late == 0)) [
    | inl e ↦ (
      (inb 503 s).0,
      rw (drq true e, wait_data) refl,
      status_error s b,
      rw (drq true e, wait_data)
          (status_polled s
            ∙ polled-calm (view s) b
            ∙ ap (λ l. record (view s) { busy = 0; late = l }) (ground arith)),
    )
    | inr e ↦
        let step = status_polled s ∙ polled-calm (view s) b in
        let (status, ready, fine, after) =
          wait_data-ready timeout (inb 503 s).1 (ap View.busy step)
            (subst (λ v. View.late v < timeout) (sym step) (ground arith))
            (ap (λ v. requests (View.phase v)) step ∙ q) in
        (
          status,
          rw (drq false e, wait_data) ready,
          fine,
          rw (drq false e, wait_data)
              (after ∙ ap (λ (v : View). record v { busy = 0; late = 0 }) step),
        )
  ]
    where
      &&-true : (c : Bool) → (c && true) ≡ c
      &&-true true = refl
      &&-true false = refl

      drq : (c : Bool) → ((view s).late == 0) ≡ c → bit 3 (inb 503 s).0 ≡ c
      drq c e = status_request s b ∙ ap₂ ◌&&◌ e q ∙ &&-true c

  wait_data-calm :
      (timeout : ℕ) (s : Machine)
      → (view s).busy ≡ 0
      → (l : ℕ) × (view (wait_data p timeout s).1 ≡ record (view s) { busy = 0; late = l })
  unfolding wait_data
  wait_data-calm zero s b = ((view s).late, ap (λ x. record (view s) { busy = x }) b)
  wait_data-calm (suc timeout) s b =
      let step = status_polled s ∙ polled-calm (view s) b in
      elim (Bool-cases (has_data (inb 503 s).0)) [
        | inl e ↦ ((view s).late - 1, rw (e, wait_data) step)
        | inr e ↦
            let (l, after) = wait_data-calm timeout (inb 503 s).1 (ap View.busy step) in
            (l, rw (e, wait_data) (after ∙ ap (λ (v : View). record v { busy = 0; late = l }) step))
      ]

  -- A command that asks for a transfer: the wait succeeds, and the drive is ready.
  pub ata_wait-ready :
      (s : Machine)
      → (view s).busy < 100000
      → (view s).late < 100000
      → requests (view s).phase ≡ true
      → ((ata_wait p s).0 ≡ pos 0)
        × (view (ata_wait p s).1 ≡ record (view s) { busy = 0; late = 0 })
  unfolding ata_wait
  ata_wait-ready s b l q =
      let (answered, calm) = wait_busy-calm 100000 s b in
      let s1 = (wait_busy p 100000 s).1 in
      let (status, ready, fine, after) =
        wait_data-ready 100000 s1 (ap View.busy calm)
          (subst (λ v. View.late v < 100000) (sym calm) (omega arith))
          (ap (λ (v : View). requests v.phase) calm ∙ q) in
      (
        rw (answered, ata_wait)
            (rw (ready, ata_wait)
              (ap (λ c. if c then negsuc 2 else pos 0) (has_error-bit status ∙ fine))),
        rw (answered, ata_wait)
            (rw (ready, ata_wait)
              (after ∙ ap (λ (v : View). record v { busy = 0; late = 0 }) calm)),
      )

  -- Whatever the wait returns, the drive is not busy any more, and has kept what it does.
  pub ata_wait-calm :
      (s : Machine)
      → (view s).busy < 100000
      → (l : ℕ) × (view (ata_wait p s).1 ≡ record (view s) { busy = 0; late = l })
  unfolding ata_wait
  ata_wait-calm s b =
      let (answered, calm) = wait_busy-calm 100000 s b in
      let s1 = (wait_busy p 100000 s).1 in
      let (l, after) = wait_data-calm 100000 s1 (ap View.busy calm) in
      (
        l,
        elim (Option-cases (wait_data p 100000 s1).0) [
          | inl e ↦
              rw (answered, ata_wait)
                (rw (e, ata_wait) (after ∙ ap (λ (v : View). record v { busy = 0; late = l }) calm))
          | inr (status, e) ↦
              rw (answered, ata_wait)
                (rw (e, ata_wait) (after ∙ ap (λ (v : View). record v { busy = 0; late = l }) calm))
        ],
      )

  -- The command of `start` finds the registers set for the sector.
  pub start-IsAddressed :
      (lba code : ℕ) (s : Machine)
      → lba < disk_max_lba
      → IsIdle (view s)
      → (s' : Machine) × (start p lba code s ≡ outb 503 code s')
        × IsAddressed lba (view s) (view s')
  unfolding start command
  start-IsAddressed lba code s h i =
      let device = 224 + lba / 16777216 % 16 in
      let s1 = outb 502 device s in
      let e1 = set_device device s i (omega arith) in
      let i1 = equal-IsIdle e1 (record { calm = i.calm; free = i.free }) in
      let s2 = outb 498 1 s1 in
      let e2 = set_count 1 s1 i1 (omega arith) in
      let i2 = equal-IsIdle e2 (record { calm = i1.calm; free = i1.free }) in
      let s3 = outb 499 (u8 lba) s2 in
      let e3 = set_low (u8 lba) s2 i2 (omega arith) in
      let i3 = equal-IsIdle e3 (record { calm = i2.calm; free = i2.free }) in
      let s4 = outb 500 (u8 (lba / 256)) s3 in
      let e4 = set_middle (u8 (lba / 256)) s3 i3 (omega arith) in
      let i4 = equal-IsIdle e4 (record { calm = i3.calm; free = i3.free }) in
      let s5 = outb 501 (u8 (lba / 65536)) s4 in
      let e5 = set_high (u8 (lba / 65536)) s4 i4 (omega arith) in
      let e =
        e5
        ∙ ap (λ (v : View). record v { high = u8 (lba / 65536) })
            (e4
              ∙ ap (λ (v : View). record v { middle = u8 (lba / 256) })
                  (e3
                    ∙ ap (λ (v : View). record v { low = u8 lba })
                        (e2 ∙ ap (λ (v : View). record v { count = 1 }) e1))) in
      (
        s5,
        refl,
        record {
          waits = equal-IsIdle e (record { calm = i.calm; free = i.free });
          one = ap View.count e;
          lba_mode = ap (λ (v : View). v.device / 16) e ∙ omega arith;
          named = ap address e ∙ omega arith;
          same = ap View.content e;
        },
      )
