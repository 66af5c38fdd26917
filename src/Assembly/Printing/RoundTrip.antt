-- ===== src/Assembly/Printing/RoundTrip.antt =====
-- `String` of a line and `tokenizeLine`, one after the other.
use mips.Prelude.{◌≡◌, refl, sym, ap, ◌∙◌, subst, String, none, some, true, inl, inr, Option-cases}
use mips.Isa.{ok, bind-ok, ok-injective}
use mips.Assembly.Token.{TokenizedLine, no_line}
use mips.Assembly.Reading.Texts.{trim_left, trim_right, trim_space, is_space}
use mips.Assembly.Reading.Lexer.{split_comment, tokenize_code, tokenize_line}
use mips.Assembly.Printing.Numerals.{◌+++◌}
use mips.Assembly.Printing.Text.{comment_string, line_string}
use mips.Assembly.Printing.Strings.{all_of-append, append_assoc, append_empty}
use mips.Assembly.Printing.Trimming.{
  no_mark, trim_right-append, trim_right-space, split_comment-none, split_comment-append,
}
use mips.Assembly.Printing.Code.{Reads}
use mips.Assembly.Printing.Found.{split_comment-trim_space}
use mips.Assembly.Printing.Lines.{Printed, is_known, tokenize_code-Printed}

-- a line by its steps
line_by :
    (s trimmed : String) (line : TokenizedLine)
    → trim_space s ≡ trimmed
    → split_comment trimmed ≡ none
    → tokenize_code trimmed ≡ ok line
    → tokenize_line s ≡ ok line
unfolding tokenize_line
line_by s trimmed line trim split read =
    rw (ap split_comment trim ∙ split, tokenize_line) (ap tokenize_code trim ∙ read)

commented_by :
    (s trimmed before c : String) (line : TokenizedLine)
    → trim_space s ≡ trimmed
    → split_comment trimmed ≡ some (before, c)
    → tokenize_code (trim_space before) ≡ ok line
    → tokenize_line s ≡ ok (record line { comment = some c })
unfolding tokenize_line
commented_by s trimmed before c line trim split read =
    rw (trim, tokenize_line) (rw split (rw read refl))

trim_right-comment : (c : String) → trim_right c ≡ c → trim_right ("#" +++ c) ≡ ("#" +++ c)
unfolding trim_right ◌+++◌ is_space
trim_right-comment String.[] h = refl
trim_right-comment (String.◌∷◌ d c) h = rw h refl

module _ (text : String) (line : TokenizedLine) (reads : Reads text line) where
  text_left : trim_left text ≡ text
  text_left = ap trim_left (sym (append_empty text)) ∙ reads.left "" ∙ append_empty text

  pub tokenize_line-bare : tokenize_line text ≡ ok line
  unfolding trim_space
  tokenize_line-bare =
      line_by text text line (ap trim_right text_left ∙ reads.right)
        (split_comment-none text reads.unmarked) reads.read

  spaced : trim_space (text +++ " ") ≡ text
  unfolding trim_space
  spaced = ap trim_right (reads.left " ") ∙ trim_right-space text ∙ reads.right

  pub tokenize_line-commented :
      (c : String)
      → trim_right c ≡ c
      → tokenize_line (text +++ " #" +++ c) ≡ ok (record line { comment = some c })
  unfolding trim_space ◌+++◌
  tokenize_line-commented c stable =
      let whole = text +++ " #" +++ c in
      commented_by whole whole (text +++ " ") c line
        (ap trim_right (reads.left (" #" +++ c))
          ∙ trim_right-append text (" #" +++ c) refl
              (trim_right-append " " ("#" +++ c) refl (trim_right-comment c stable)))
        (ap split_comment (sym (append_assoc text " " ("#" +++ c)))
          ∙ split_comment-append (text +++ " ") c
              (all_of-append no_mark text " " reads.unmarked refl))
        (ap tokenize_code spaced ∙ reads.read)

-- a line that is only a comment
tokenize_line-comment :
    (c : String)
    → trim_right c ≡ c
    → tokenize_line (line_string (record no_line { comment = some c }))
      ≡ ok (record no_line { comment = some c })
unfolding line_string ◌+++◌ trim_space trim_left is_space tokenize_code
tokenize_line-comment c stable =
    commented_by ("#" +++ c) ("#" +++ c) String.[] c no_line (trim_right-comment c stable)
      (split_comment-append String.[] c refl) refl

tokenize_line-empty : tokenize_line (line_string no_line) ≡ ok no_line
unfolding tokenize_line line_string tokenize_code
tokenize_line-empty = refl

pub Printed-bare :
    (line : TokenizedLine) → Printed line → tokenize_line (line_string line) ≡ ok line
unfolding comment_string
Printed-bare line p =
    ap tokenize_line (ap line_string (sym p.bare) ∙ p.printed none ∙ append_empty p.text)
    ∙ tokenize_line-bare p.text line p.reads

Printed-commented :
    (line : TokenizedLine) (c : String)
    → Printed line
    → trim_right c ≡ c
    → tokenize_line (line_string (record line { comment = some c }))
      ≡ ok (record line { comment = some c })
unfolding comment_string
Printed-commented line c p stable =
    ap tokenize_line (p.printed (some c)) ∙ tokenize_line-commented p.text line p.reads c stable

-- A text that is tokenized as a line, whose instruction, if it has one, matches a template: the line
-- is printed as a text that is tokenized as the same line, with its comment, directive, instruction
-- with all arguments, and symbol. (`String` marks an instruction without a template as
-- unrecognized, so such a line is not covered.)
pub tokenize_line-line_string :
    (line_text : String) (line : TokenizedLine)
    → tokenize_line line_text ≡ ok line
    → is_known line ≡ true
    → tokenize_line (line_string line) ≡ ok line
unfolding tokenize_line
tokenize_line-line_string s line h known = elim (Option-cases (split_comment (trim_space s))) [
  | inl bare ↦
      elim (tokenize_code-Printed (trim_space s) line (rw (bare, tokenize_line) at h) known) [
        | inl nothing ↦
            subst (λ l. tokenize_line (line_string l) ≡ ok l) (sym nothing) tokenize_line-empty
        | inr p ↦ Printed-bare line p
      ]
  | inr (m, found) ↦
      let stable = split_comment-trim_space s m found in
      let (l, read, made) =
        bind-ok (tokenize_code (trim_space m.0)) _ line (rw (found, tokenize_line) at h) in
      let same : record l { comment = some m.1 } ≡ line = ok-injective _ line made in
      let known_l : is_known l ≡ true = rw (sym same) at known in
      subst (λ k. tokenize_line (line_string k) ≡ ok k) same
        (elim (tokenize_code-Printed (trim_space m.0) l read known_l) [
          | inl nothing ↦
              subst
                (λ k.
                  tokenize_line (line_string (record k { comment = some m.1 }))
                  ≡ ok (record k { comment = some m.1 }))
                (sym nothing) (tokenize_line-comment m.1 stable)
          | inr p ↦ Printed-commented l m.1 p stable
        ])
]
