-- ===== src/Dns/Text.antt =====
-- The text of the patch: what addStubDomain writes, removeStubDomain takes out again.
use maesh.Common.{
  Bool, true, false, String, [], ◌∷◌, ◌≡◌, ◌≢◌, refl, sym, ap, ◌∙◌, none, some, ◌==◌, string_eq,
  eq_iff, Bool-cases, inl, inr,
}
use Prim.Native.Char.{Char}
use text.Mathlib.TextLemmas.{cons-append, append-nil, append_assoc, cons≢nil}
use maesh.Common.Text.{concat, cut, has_infix}
use maesh.Common.Text.Laws.{◌⧺◌, strip_prefix-append}
use maesh.Common.Text.Lines.{OneLine, cut-next_line, cut_self, cut-longer}
use maesh.Dns.{
  sliced, slice, get_stub_domain, first_part, second_part, remove_stub_domain, replace_stub_domain,
  joined_config, add_stub_domain, stub_domain, stub_domain_body,
}

-- A configuration with a block behind it: `h` and `t` are the header and the trailer, `body` the
-- lines between them.
abbrev block : String → String → String → String
block h body t = h ⧺ ("\n" ⧺ (body ⧺ ("\n" ⧺ t)))

-- Neither the header nor the trailer spans lines, and neither stands in the configuration; nor does the
-- trailer stand in the header or in the body.
pub record IsPlain (c : Char) (h : String) (d : Char) (t config body : String) : Type 0 where
  pub one_line_header : OneLine "\n" (String.◌∷◌ c h)
  pub one_line_trailer : OneLine "\n" (String.◌∷◌ d t)
  pub no_header : cut (String.◌∷◌ c h) config ≡ none
  pub no_trailer : cut (String.◌∷◌ d t) config ≡ none
  pub header_plain : cut (String.◌∷◌ d t) (String.◌∷◌ c h) ≡ none
  pub body_plain : cut (String.◌∷◌ d t) body ≡ none

module _ (c : Char) (h : String) (d : Char) (t config body : String) where
  abbrev header : String
  header = String.◌∷◌ c h

  abbrev trailer : String
  trailer = String.◌∷◌ d t

  abbrev stub : String
  stub = block header body trailer

  abbrev patched : String
  patched = joined_config config stub

  block-append :
      (rest : String) → (stub ⧺ rest) ≡ header ⧺ ("\n" ⧺ (body ⧺ ("\n" ⧺ (trailer ⧺ rest))))
  block-append rest = simp append_assoc

  module _ (p : IsPlain c h d t config body) where
    cut-header :
        (rest : String)
        → cut header (config ⧺ ("\n" ⧺ (header ⧺ rest))) ≡ some (config ⧺ "\n", rest)
    cut-header rest =
        cut-next_line "\n" c h p.one_line_header config (header ⧺ rest) "" rest p.no_header
          (cut_self c h rest)

    cut-trailer :
        (rest : String)
        → cut trailer (config ⧺ ("\n" ⧺ (stub ⧺ rest)))
          ≡ some (config ⧺ ("\n" ⧺ (header ⧺ ("\n" ⧺ (body ⧺ "\n")))), rest)
    cut-trailer rest =
        let next = cut-next_line "\n" d t p.one_line_trailer in
        rw (block-append rest) (
          next config _ _ rest p.no_trailer (
            next header _ _ rest p.header_plain
              (next body (trailer ⧺ rest) "" rest p.body_plain (cut_self d t rest))))

    upto_eq :
        concat ((config ⧺ ("\n" ⧺ (header ⧺ ("\n" ⧺ (body ⧺ "\n"))))) ∷ trailer ∷ [])
        ≡ (config ⧺ "\n") ⧺ stub
    upto_eq = simp (append_assoc, append-nil)

    cut-header-patched :
        cut header patched ≡ some (config ⧺ "\n", "\n" ⧺ (body ⧺ ("\n" ⧺ (trailer ⧺ "\n"))))
    cut-header-patched = rw (block-append "\n") (cut-header _)

    get_stub_domain-patched : get_stub_domain patched header trailer ≡ sliced stub
    unfolding get_stub_domain slice
    get_stub_domain-patched =
        rw
          (
            get_stub_domain,
            cut-header-patched,
            cut-trailer "\n",
            upto_eq,
            slice,
            strip_prefix-append (config ⧺ "\n") stub,
          )
          refl

    remove_stub_domain-patched : remove_stub_domain patched header trailer ≡ config ⧺ "\n"
    unfolding has_infix remove_stub_domain first_part second_part
    remove_stub_domain-patched =
        let longer_header =
          cut-longer header "\n" patched _ _ _ cut-header-patched
            (strip_prefix-append "\n" (body ⧺ ("\n" ⧺ (trailer ⧺ "\n")))) in
        let longer_trailer =
          cut-longer trailer "\n" patched _ _ _ (cut-trailer "\n") (strip_prefix-append "\n" "") in
        rw
          (
            remove_stub_domain, has_infix, cut-header-patched, first_part, longer_header,
            second_part, longer_trailer,
          )
          (append-nil (config ⧺ "\n"))

stub_domain-block :
    (header trailer cluster_domain mesh : String) (old : Bool)
    → stub_domain header trailer cluster_domain mesh old
      ≡ block header (stub_domain_body cluster_domain mesh old) trailer
unfolding stub_domain
stub_domain-block header trailer cluster_domain mesh old = rw append-nil refl

cons_nonempty : (c : Char) (h r : String) → ((String.◌∷◌ c h) ⧺ r) ≢ ""
cons_nonempty c h r e = cons≢nil (sym (cons-append c h r) ∙ e)

block_nonempty : (c : Char) (h body t : String) → (block (String.◌∷◌ c h) body t == "") ≡ false
block_nonempty c h body t = elim (Bool-cases (block (String.◌∷◌ c h) body t == "")) [
  | inr e ↦ e
  | inl e ↦ absurd (
      cons_nonempty c h ("\n" ⧺ (body ⧺ ("\n" ⧺ t)))
        ((eq_iff (block (String.◌∷◌ c h) body t) "").0 e))
]

nonempty_block : (c : Char) (h body t : String) → ("" == block (String.◌∷◌ c h) body t) ≡ false
nonempty_block c h body t = elim (Bool-cases ("" == block (String.◌∷◌ c h) body t)) [
  | inr e ↦ e
  | inl e ↦ absurd (
      cons_nonempty c h ("\n" ⧺ (body ⧺ ("\n" ⧺ t)))
        (sym ((eq_iff "" (block (String.◌∷◌ c h) body t)).0 e)))
]

replace-fresh :
    (config header trailer stub : String)
    → ("" == stub) ≡ false
    → replace_stub_domain config header trailer stub (sliced "")
      ≡ some (joined_config config stub, true)
unfolding replace_stub_domain
replace-fresh config header trailer stub e = rw e refl

replace-same :
    (config header trailer stub : String)
    → (stub == "") ≡ false
    → replace_stub_domain config header trailer stub (sliced stub)
      ≡ some (joined_config (remove_stub_domain config header trailer) stub, false)
unfolding replace_stub_domain
replace-same config header trailer stub e = rw (e, (eq_iff stub stub).1 refl) refl

get_stub_domain-plain :
    (config head tail : String)
    → cut head config ≡ none
    → get_stub_domain config head tail ≡ sliced ""
unfolding get_stub_domain
get_stub_domain-plain config head tail e = rw (get_stub_domain, e) refl

-- A configuration that has neither the header nor the trailer gets the stub domain behind it, as a
-- change; taking the stub domain out again leaves the configuration with a line break behind it; and
-- adding the same stub domain a second time reports that nothing has changed.
pub remove_stub_domain-add_stub_domain :
    (c : Char) (h : String) (d : Char) (t config cluster_domain mesh : String) (old : Bool)
    → IsPlain c h d t config (stub_domain_body cluster_domain mesh old)
    → let header = String.◌∷◌ c h in
      let trailer = String.◌∷◌ d t in
      let stub = stub_domain header trailer cluster_domain mesh old in
      let patched = joined_config config stub in
      (add_stub_domain config header trailer cluster_domain mesh old ≡ some (patched, true))
      × (remove_stub_domain patched header trailer ≡ config ⧺ "\n")
      × (add_stub_domain patched header trailer cluster_domain mesh old
          ≡ some (joined_config (config ⧺ "\n") stub, false))
unfolding add_stub_domain
remove_stub_domain-add_stub_domain c h d t config cluster_domain mesh old p =
    let header = String.◌∷◌ c h in
    let trailer = String.◌∷◌ d t in
    let body = stub_domain_body cluster_domain mesh old in
    let stub = block header body trailer in
    let patched = joined_config config stub in
    rw (stub_domain-block header trailer cluster_domain mesh old) (
      rw (get_stub_domain-plain config header trailer p.no_header)
          (replace-fresh config header trailer stub (nonempty_block c h body trailer)),
      remove_stub_domain-patched c h d t config body p,
      rw (get_stub_domain-patched c h d t config body p) (
          replace-same patched header trailer stub (block_nonempty c h body trailer)
          ∙ ap (λ (a : String). some (joined_config a stub, false))
              (remove_stub_domain-patched c h d t config body p)),
    )
