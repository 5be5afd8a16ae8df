-- ===== src/Shell/Commands/Files.antt =====
-- kernel/shell/shell_commands.c: what "cat" prints of a file that "wr" has written.
use naw_os.Base.{
  ℕ, zero, suc, ◌+◌, ◌≤◌, ◌<◌, ◌≡◌, ◌≢◌, ◌∙◌, refl, sym, subst, ap, ap₂, Bool, true, false,
  Bool-cases, inl, inr, some, List, [], ◌∷◌, ◌++◌, ◌==◌, if◌then◌else◌, length, length-append,
  length-take, take, take_all, lt→ltb, arith, All, All-append, All-map,
}
use naw_os.CString.{text, strlen, peek, rest, strcmp, strncmp}
use naw_os.CString.Laws.{length-text, text-eq_self, text-All}
use naw_os.NawLang.Compiler.Scan.{codes}
use naw_os.NawFs.Device.{BlockDevice, IsReliable}
use naw_os.NawFs.Format.Names.{padded}
use naw_os.NawFs.Catalog.{Fs}
use naw_os.NawFs.Files.{fs_write, fs_read}
use naw_os.NawFs.Files.Reading.{SameFile}
use naw_os.NawFs.Files.Valid.{IsValid}
use naw_os.NawFs.Files.Laws.Write.{fs_read-fs_write_same}
use naw_os.Keyboard.{KeyboardEvent}
use naw_os.Shell.Parser.{separator, shell_parse_filename, shell_parse_write_request}
use naw_os.Shell.Parser.Laws.{
  IsNameByte, IsTextByte, shell_parse_filename-dotted, shell_parse_write_request-separated,
}
use naw_os.Shell.Commands.{
  Effect, says, Locals, shown, command_of, shell_wr, shell_cat, run_command, shell_execute_command,
}

-- The arrays have the sizes of their declarations.
pub record IsSized (l : Locals) : Type 0 where
  pub text_size : length l.text_array ≡ 128
  pub file_size : length l.file_array ≡ 16
  pub name_size : length l.name_array ≡ 9
  pub ext_size : length l.ext_array ≡ 4

-- `n`, a dot and `e` are a name that the commands take: it fits in 16 bytes, and neither part is empty.
pub record IsFilename (n e : List ℕ) : Type 0 where
  pub name_bytes : All IsNameByte n
  pub has_name : 0 < length n
  pub ext_bytes : All (λ c. c ≢ 0) e
  pub has_ext : 0 < length e
  pub fits : length n + length e ≤ 14

abbrev pub dotted : List ℕ → List ℕ → List ℕ
dotted n e = n ++ (b'.' ∷ e)

dotted-All : (n e : List ℕ) → IsFilename n e → All (λ c. c ≢ 0) (dotted n e)
dotted-All n e h =
    All-append (λ c. c ≢ 0) n (b'.' ∷ e) (All-map n (λ c p. p.0) h.name_bytes)
      ((λ z. omega arith), h.ext_bytes)

text-cons : (c : ℕ) (f w : List ℕ) → text (c ∷ f) ≡ w → 0 < length w → (c ∷ text f) ≡ w
unfolding text
text-cons c f w h positive = elim (Bool-cases (c == 0)) [
  | inl z ↦ absurd (omega (arith, positive, ap length (sym (emptied z) ∙ h)))
  | inr z ↦ rw (← h, z) refl
]
  where
    emptied : (c == 0) ≡ true → text (c ∷ f) ≡ []
    emptied z = rw z refl

-- An array that holds a name with a dot is the part before the dot, then a string.
text-dotted :
    (f n e : List ℕ) → text f ≡ dotted n e → (e' : List ℕ) × (f ≡ dotted n e') × (text e' ≡ e)
unfolding text
text-dotted [] [] e h = absurd (omega (arith, ap length h))
text-dotted [] (x ∷ n) e h = absurd (omega (arith, ap length h))
text-dotted (c ∷ f) [] e h =
    let p = text-cons c f (b'.' ∷ e) h (omega arith) in (f, ap (λ x. x ∷ f) (ap peek p), ap rest p)
text-dotted (c ∷ f) (x ∷ n) e h =
    let p = text-cons c f (x ∷ dotted n e) h (omega arith) in
    let (e', q, s) = text-dotted f n e (ap rest p) in (e', ap₂ ◌∷◌ (ap peek p) q, s)

padded-text : (k : ℕ) (s : List ℕ) → padded k s ≡ padded k (text s)
unfolding padded text
padded-text zero s = refl
padded-text (suc k) [] = refl
padded-text (suc k) (c ∷ s) = elim (Bool-cases (c == 0)) [
  | inl z ↦ ground arith
  | inr z ↦ ground (arith, padded-text k s)
]

texts-SameFile :
    (name ext name' ext' : List ℕ)
    → text name ≡ text name'
    → text ext ≡ text ext'
    → SameFile name ext name' ext'
texts-SameFile name ext name' ext' p q = (
  padded-text 8 name ∙ ap (padded 8) p ∙ sym (padded-text 8 name'),
  padded-text 3 ext ∙ ap (padded 3) q ∙ sym (padded-text 3 ext'),
)

-- A name that an array holds is parsed as its two parts, cut to 8 and 3 bytes.
shell_parse_filename-array :
    (f n e name ext : List ℕ)
    → IsFilename n e
    → text f ≡ dotted n e
    → length name ≡ 9
    → length ext ≡ 4
    → (name' ext' : List ℕ) × (shell_parse_filename f name ext ≡ (true, name', ext'))
      × (text name' ≡ take 8 n)
      × (text ext' ≡ take 3 e)
shell_parse_filename-array f n e name ext h p l l' =
    let (e', q, s) = text-dotted f n e p in
    let (name', ext', parsed, a, b) =
      shell_parse_filename-dotted n e' name ext h.name_bytes h.has_name l l' in
    (
      name',
      ext',
      ap (λ x. shell_parse_filename x name ext) q
          ∙ parsed
          ∙ ap (λ x. (x, name', ext'))
              (lt→ltb 0 (strlen e') (omega (arith, length-text e', ap length s, h.has_ext))),
      a,
      b ∙ ap (take 3) s,
    )

said : Effect → List ℕ
said (says t) = t
said e = []

module _ (dev : BlockDevice) where
  open dev use {Disk}

  shell_wr-parsed :
      (l : Locals) (input t f name ext : List ℕ) (fs : Fs Disk)
      → shell_parse_write_request input l.text_array 128 l.file_array 16 ≡ (true, t, f)
      → shell_parse_filename f l.name_array l.ext_array ≡ (true, name, ext)
      → shell_wr dev l input fs ≡ (
        says (
            if (fs_write dev name ext t fs).0
            then codes "File written\n"
            else codes "Failed to write file\n"),
        (fs_write dev name ext t fs).1,
      )
  unfolding shell_wr
  shell_wr-parsed l input t f name ext fs p q = rw (p, shell_wr) (rw q refl)

  shell_cat-parsed :
      (l : Locals) (input name ext : List ℕ) (fs : Fs Disk)
      → shell_parse_filename input l.name_array l.ext_array ≡ (true, name, ext)
      → shell_cat dev l input fs ≡ (says (shown (fs_read dev name ext fs)), fs)
  unfolding shell_cat
  shell_cat-parsed l input name ext fs p = rw (p, shell_cat) refl

  written_iff :
      (done : Bool)
      → says (if done then codes "File written\n" else codes "Failed to write file\n")
        ≡ says (codes "File written\n")
      → done ≡ true
  unfolding said
  written_iff true h = refl
  written_iff false h = absurd (omega (arith, ap (λ x. length (said x)) h))

  shell_execute_command-wr :
      (keys : List KeyboardEvent) (l : Locals) (input : List ℕ) (fs : Fs Disk)
      → shell_execute_command dev keys l (codes "wr " ++ input) fs ≡ shell_wr dev l input fs
  unfolding shell_execute_command command_of run_command strcmp strncmp
  shell_execute_command-wr keys l input fs = refl

  shell_execute_command-cat :
      (keys : List KeyboardEvent) (l : Locals) (input : List ℕ) (fs : Fs Disk)
      → shell_execute_command dev keys l (codes "cat " ++ input) fs ≡ shell_cat dev l input fs
  unfolding shell_execute_command command_of run_command strcmp strncmp
  shell_execute_command-cat keys l input fs = refl

  module _ (r : IsReliable dev) where
    shell_cat-shell_wr :
        (l l' : Locals) (n e t : List ℕ) (fs : Fs Disk)
        → IsSized l
        → IsSized l'
        → IsFilename n e
        → All IsTextByte t
        → IsValid fs
        → (shell_wr dev l (t ++ (separator ++ dotted n e)) fs).0 ≡ says (codes "File written\n")
        → shell_cat dev l' (dotted n e) (shell_wr dev l (t ++ (separator ++ dotted n e)) fs).1 ≡ (
          says (take 127 t ++ codes "\n"),
          (shell_wr dev l (t ++ (separator ++ dotted n e)) fs).1,
        )
    shell_cat-shell_wr l l' n e t fs s s' h ht v done =
        let (c, f, p, is_text, is_file) =
          shell_parse_write_request-separated t (dotted n e) l.text_array l.file_array 127 15 ht
            s.text_size s.file_size in
        let (name, ext, q, is_name, is_ext) =
          shell_parse_filename-array f n e l.name_array l.ext_array h
            (is_file ∙ ap (take 15) whole ∙ take_all 15 (dotted n e) short) s.name_size
            s.ext_size in
        let (name', ext', q', is_name', is_ext') =
          shell_parse_filename-array (dotted n e) n e l'.name_array l'.ext_array h whole
            s'.name_size s'.ext_size in
        let w = shell_wr-parsed l request c f name ext fs p q in
        rw w (
          shell_cat-parsed l' (dotted n e) name' ext' (fs_write dev name ext c fs).1 q'
          ∙ ap (λ x. (says (shown x), (fs_write dev name ext c fs).1))
              (fs_read-fs_write_same dev r name ext name' ext' c fs v
                  (omega (arith, length-text c, ap length is_text, length-take 127 t))
                  (texts-SameFile name ext name' ext' (is_name ∙ sym is_name')
                    (is_ext ∙ sym is_ext'))
                  (written_iff (fs_write dev name ext c fs).0 (ap (λ x. x.0) (sym w) ∙ done))
                ∙ ap some (kept c is_text))
          ∙ ap (λ x. (says (x ++ codes "\n"), (fs_write dev name ext c fs).1))
              (text-eq_self (take 127 t) (subst (All (λ b. b ≢ 0)) is_text (text-All c))))
      where
        request : List ℕ
        request = t ++ (separator ++ dotted n e)

        whole : text (dotted n e) ≡ dotted n e
        whole = text-eq_self (dotted n e) (dotted-All n e h)

        short : length (dotted n e) ≤ 15
        short = omega (arith, length-append n (b'.' ∷ e), h.fits)

        kept : (c : List ℕ) → text c ≡ take 127 t → take 512 (text c) ≡ take 127 t
        kept c p = ap (take 512) p ∙ take_all 512 (take 127 t) (omega (arith, length-take 127 t))

    -- The shell, its parser and the file system together. Hypotheses: a reliable disk and a valid
    -- catalog; arrays of their declared sizes; a name of two parts that are not empty and have no 0, of
    -- together at most 14 bytes, the first without a dot; a text without 0 and without a dash. When the
    -- line that writes the text to the file reports that it was written, the line that prints the file
    -- prints the first 127 bytes of the text and changes nothing, whatever key events come meanwhile.
    pub shell_execute_command-wr_cat :
        (keys keys' : List KeyboardEvent) (l l' : Locals) (n e t : List ℕ) (fs : Fs Disk)
        → IsSized l
        → IsSized l'
        → IsFilename n e
        → All IsTextByte t
        → IsValid fs
        → (shell_execute_command dev keys l (codes "wr " ++ (t ++ (separator ++ dotted n e))) fs).0
          ≡ says (codes "File written\n")
        → shell_execute_command dev keys' l'
            (codes "cat " ++ dotted n e)
            (shell_execute_command dev keys l
              (codes "wr " ++ (t ++ (separator ++ dotted n e)))
              fs).1
          ≡ (
            says (take 127 t ++ codes "\n"),
            (shell_execute_command dev keys l
                (codes "wr " ++ (t ++ (separator ++ dotted n e)))
                fs).1,
          )
    shell_execute_command-wr_cat keys keys' l l' n e t fs s s' h ht v done =
        rw
          (
            shell_execute_command-wr keys l request fs,
            shell_execute_command-cat keys' l' (dotted n e) _,
          )
          (shell_cat-shell_wr l l' n e t fs s s' h ht v
            (ap (λ x. x.0) (sym (shell_execute_command-wr keys l request fs)) ∙ done))
      where
        request : List ℕ
        request = t ++ (separator ++ dotted n e)
