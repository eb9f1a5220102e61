-- ===== src/Getline/Newline.antt =====
-- `mygetline` of 25.标准IO/getline_5.c at a line that ends with a newline.
use mathlib.Core.List.{append_assoc}
use apue_li_huiqin.Base.{
  ℕ, zero, suc, ◌+◌, ◌-◌, ◌*◌, ◌≤◌, ◌<◌, ◌≡◌, refl, sym, ◌∙◌, ap, false, Option, none, some, List,
  [], ◌∷◌, ◌++◌, arith, ltb, length, take, drop, replicate, All, length-append, length-take,
  length-drop, take-append-drop, Bool-cases, inl, inr,
}
use apue_li_huiqin.Getline.{Line, finish, at, grow_loop, widen, mygetline}
use apue_li_huiqin.Getline.Text.{IsText, take-prefix, drop-prefix, All-drop, turn-short, turn-long}

-- A line with its newline behind `text`, got with `budget` allocations left: where it stands, what is
-- returned, and that it took at most one allocation for each byte of `new`.
pub record Got (text rest : List ℕ) (budget new : ℕ) (o : Option Line) : Type 0 where
  pub line : Line
  pub is : o ≡ some line
  pub len : line.len ≡ length text + 1
  pub shown : take line.len line.buf ≡ text ++ 10 ∷ []
  pub left : line.rest ≡ rest
  pub fits : line.len < line.size
  pub enough : budget ≤ line.grants + new

at-prefix : (n : ℕ) (xs zeros : List ℕ) → length xs ≡ n → at (xs ++ 10 ∷ zeros) n ≡ 10
unfolding at
at-prefix n xs zeros e = rw (at, drop-prefix n xs (10 ∷ zeros) e) refl

take-line :
    (n : ℕ) (xs zeros : List ℕ) → length xs ≡ n → take (n + 1) (xs ++ 10 ∷ zeros) ≡ xs ++ 10 ∷ []
take-line n xs zeros e =
    ap (take (n + 1)) (sym (append_assoc xs (10 ∷ []) zeros))
    ∙ take-prefix (n + 1) (xs ++ 10 ∷ []) zeros (omega (arith, length-append xs (10 ∷ []), e))

pub finish-Got :
    (grants bufsize begin end : ℕ) (done l rest zeros : List ℕ)
    → length done ≡ begin
    → begin + length l + 1 < end
    → Got (done ++ l) rest grants (length l) (
        some (
          finish grants bufsize end
            (done ++ ((l ++ 10 ∷ []) ++ zeros))
            rest
            (begin + length l)
            (at (done ++ ((l ++ 10 ∷ []) ++ zeros)) (begin + length l))))
unfolding finish at
finish-Got grants bufsize begin end done l rest zeros e k =
    let len : length (done ++ l) ≡ begin + length l = omega (arith, length-append done l, e) in
    let flat : done ++ ((l ++ 10 ∷ []) ++ zeros) ≡ (done ++ l) ++ 10 ∷ zeros =
      ap (λ t. done ++ t) (append_assoc l (10 ∷ []) zeros)
      ∙ sym (append_assoc done l (10 ∷ zeros)) in
    let byte : at (done ++ ((l ++ 10 ∷ []) ++ zeros)) (begin + length l) ≡ 10 =
      ap (λ b. at b (begin + length l)) flat ∙ at-prefix (begin + length l) (done ++ l) zeros len in
    record {
      line = _;
      is = refl;
      len = rw byte (omega (arith, len));
      shown = rw (byte, flat) (take-line (begin + length l) (done ++ l) zeros len);
      left = refl;
      fits = rw byte (ground (arith, k));
      enough = omega arith;
    }

-- Counted against a smaller budget, or for more bytes.
pub Got-weaken :
    {text text' rest : List ℕ} {budget budget' new new' : ℕ} {o : Option Line}
    → text ≡ text'
    → budget' + new ≤ budget + new'
    → Got text rest budget new o
    → Got text' rest budget' new' o
Got-weaken e le g = record {
  line = g.line;
  is = g.is;
  len = g.len ∙ ap (λ t. length t + 1) e;
  shown = g.shown ∙ ap (λ t. t ++ 10 ∷ []) e;
  left = g.left;
  fits = g.fits;
  enough = omega (arith, le, g.enough);
}

-- A turn that reads the whole line.
grow_loop-short :
    (grants bufsize begin end : ℕ) (buf done l rest : List ℕ)
    → take begin buf ≡ done
    → length done ≡ begin
    → All IsText l
    → length l < end - 1 - begin
    → Got
        (done ++ l)
        rest
        grants
        (length l)
        (grow_loop grants bufsize begin end buf (l ++ 10 ∷ rest))
unfolding grow_loop
grow_loop-short zero bufsize begin end buf done l rest e len text k =
    rw (grow_loop, turn-short begin end buf done l rest e len text k)
      (finish-Got zero bufsize begin end done l rest _ len (omega (arith, k)))
grow_loop-short (suc grants) bufsize begin end buf done l rest e len text k =
    rw (grow_loop, turn-short begin end buf done l rest e len text k)
      (finish-Got (suc grants) bufsize begin end done l rest _ len (omega (arith, k)))

-- The loop gets the line if an allocation for each byte of it succeeds.
pub grow_loop-Got :
    (grants bufsize begin end : ℕ) (buf done l rest : List ℕ)
    → take begin buf ≡ done
    → length done ≡ begin
    → All IsText l
    → begin + 1 < end
    → length l ≤ grants
    → Got
        (done ++ l)
        rest
        grants
        (length l)
        (grow_loop grants bufsize begin end buf (l ++ 10 ∷ rest))
unfolding grow_loop
grow_loop-Got zero bufsize begin end buf done l rest e len text k g =
    grow_loop-short zero bufsize begin end buf done l rest e len text (omega arith)
grow_loop-Got (suc grants) bufsize begin end buf done l rest e len text k g =
    elim (Bool-cases (ltb (length l) (end - 1 - begin))) [
      | inl short ↦
          grow_loop-short (suc grants) bufsize begin end buf done l rest e len text (ground arith)
      | inr long ↦
          let n : ℕ = end - 1 - begin in
          let got : List ℕ = take n l in
          let zeros : List ℕ = replicate (end - begin - length got) 0 in
          let fills : n ≤ length l = ground arith in
          let size : length got ≡ n = omega (arith, length-take n l) in
          let read : length (done ++ got) ≡ end - 1 =
            omega (arith, length-append done got, size, len) in
          let left = length-drop n l in
          let kept : take (end - 1) (done ++ (got ++ zeros)) ≡ done ++ got =
            ap (take (end - 1)) (sym (append_assoc done got zeros))
            ∙ take-prefix (end - 1) (done ++ got) zeros read in
          let whole : (done ++ got) ++ drop n l ≡ done ++ l =
            append_assoc done got (drop n l) ∙ ap (λ t. done ++ t) (take-append-drop n l) in
          rw (grow_loop, turn-long begin end buf done l (10 ∷ rest) e len text (omega arith) fills)
            (Got-weaken whole (omega (arith, left)) (
              grow_loop-Got grants bufsize (end - 1) (end * 2) (done ++ (got ++ zeros))
                (done ++ got) (drop n l) rest kept read (All-drop n l text) (omega arith)
                (omega (arith, left))))
    ]

-- A buffer that is there has at least one byte.
abbrev pub HasRoom : Option (List ℕ) → ℕ → Type 0
HasRoom none bufsize = Unit
HasRoom (some buf) bufsize = 0 < bufsize

widen-Got :
    (grants bufsize end : ℕ) (buf l rest : List ℕ)
    → All IsText l
    → 0 < end
    → length l < grants
    → Got l rest grants (length l + 1) (widen grants bufsize end buf (l ++ 10 ∷ rest))
unfolding widen
widen-Got zero bufsize end buf l rest text k g = absurd (omega arith)
widen-Got (suc grants) bufsize end buf l rest text k g = elim (Bool-cases (ltb end 2)) [
  | inl small ↦
      rw (widen, small)
        (Got-weaken refl (omega arith) (
          grow_loop-Got grants bufsize 0 (end * 2) buf [] l rest refl refl text (omega arith)
            (omega arith)))
  | inr wide ↦
      let w : 1 < end = ground arith in
      rw (widen, wide)
        (Got-weaken refl (omega arith) (
          grow_loop-Got (suc grants) bufsize 0 end buf [] l rest refl refl text (omega arith)
            (omega arith)))
]

-- `mygetline` gets a line that ends with a newline and has no NUL, however long, where the buffer is NULL
-- or has a byte and at least two allocations more succeed than the line has bytes before the newline:
-- the buffer begins with the line, whose length is returned, `*bufsize` is larger than that, the rest
-- of the file is left, and at most so many allocations have been made.
pub mygetline-Got :
    (grants bufsize : ℕ) (p : Option (List ℕ)) (l rest : List ℕ)
    → All IsText l
    → HasRoom p bufsize
    → length l + 1 < grants
    → Got l rest grants (length l + 2) (mygetline grants p bufsize (l ++ 10 ∷ rest))
unfolding mygetline
mygetline-Got zero bufsize p l rest text h k = absurd (omega arith)
mygetline-Got (suc grants) bufsize none l rest text h k =
    Got-weaken refl (omega arith)
      (widen-Got grants bufsize 4 [] l rest text (omega arith) (omega arith))
mygetline-Got (suc grants) bufsize (some buf) l rest text h k =
    let room : ltb bufsize 1 ≡ false = ground (arith, h) in
    rw (mygetline, room)
      (Got-weaken refl (omega arith)
        (widen-Got (suc grants) bufsize bufsize buf l rest text h (omega arith)))
