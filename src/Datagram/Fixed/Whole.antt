-- ===== src/Datagram/Fixed/Whole.antt =====
-- What the receiver of 35.网络编程专题/报式套接字/固定的包体 shows of what its sender has sent.
use mathlib.Core.List.{append_assoc}
use apue_li_huiqin.Base.{
  ℕ, ◌%◌, ◌^◌, ◌<◌, ◌≡◌, refl, ap, ◌∙◌, sym, some, List, ◌++◌, arith, length, drop, length-append,
  length-drop, drop-append, drop-add,
}
use apue_li_huiqin.Datagram.{htonl, ntohl, until_zero, recvfrom}
use apue_li_huiqin.Datagram.Bytes.{ntohl-htonl, recvfrom_fits}
use apue_li_huiqin.Datagram.Fixed.{namesize, alan, strcpy, message, sizeof_msg, show}

length-strcpy : (field : List ℕ) → length field ≡ namesize → length (strcpy alan field) ≡ namesize
unfolding strcpy
length-strcpy field h = omega (arith, length-drop 5 field)

length-message :
    (field : List ℕ) (rand_math rand_chinese : ℕ)
    → length field ≡ namesize
    → length (message field rand_math rand_chinese) ≡ sizeof_msg
unfolding message htonl
length-message field rand_math rand_chinese h = omega (
  arith,
  length-strcpy field h,
  length-append (strcpy alan field) (htonl (rand_math % 100) ++ htonl (rand_chinese % 100)),
)

alan-until_zero : (field rest : List ℕ) → until_zero (strcpy alan field ++ rest) ≡ alan
unfolding strcpy until_zero
alan-until_zero field rest = refl

-- The receiver shows the name and the marks that the sender has sent, whatever the memory of the sender's
-- message, of the receiver's and behind that held before.
pub show-message :
    (field : List ℕ) (rand_math rand_chinese : ℕ) (buffer beyond : List ℕ)
    → length field ≡ namesize
    → show beyond (recvfrom sizeof_msg (some (message field rand_math rand_chinese)) buffer)
      ≡ record { name = alan; math = rand_math % 100; chinese = rand_chinese % 100 }
unfolding show message
show-message field rand_math rand_chinese buffer beyond h =
    let named : List ℕ = strcpy alan field in
    let math : List ℕ = htonl (rand_math % 100) in
    let chinese : List ℕ = htonl (rand_chinese % 100) in
    let old : List ℕ = drop (length (message field rand_math rand_chinese)) buffer in
    let rest : List ℕ = math ++ (chinese ++ old) in
    let there : (named ++ (math ++ chinese)) ++ old ≡ named ++ rest =
      append_assoc named (math ++ chinese) old
      ∙ ap (λ l. named ++ l) (append_assoc math chinese old) in
    let marks : drop namesize (named ++ rest) ≡ rest =
      ap (λ n. drop n (named ++ rest)) (sym (length-strcpy field h)) ∙ drop-append named rest in
    let small : rand_math % 100 < 2 ^ 32 = omega arith in
    let small_too : rand_chinese % 100 < 2 ^ 32 = omega arith in
    ap (show beyond) (
      recvfrom_fits sizeof_msg (message field rand_math rand_chinese) buffer
        (omega (arith, length-message field rand_math rand_chinese h))
      ∙ there)
    ∙ λ i. record {
      name =
          (ap until_zero (append_assoc named rest beyond) ∙ alan-until_zero field (rest ++ beyond))
            i;
      math = (ap ntohl marks ∙ ntohl-htonl (rand_math % 100) (chinese ++ old) small) i;
      chinese =
          (ap ntohl (drop-add 11 4 (named ++ rest) ∙ ap (drop 4) marks)
              ∙ ntohl-htonl (rand_chinese % 100) old small_too)
            i;
    }
