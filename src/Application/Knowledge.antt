-- ===== src/Application/Knowledge.antt =====
-- `ParagraphChunker` of application/knowledge.py: sections by Markdown headings, and paragraphs
-- packed into chunks of at most `max_characters` characters.
pub mod Bounds
pub mod Complete
pub mod Numbering
use kelvin_assistant.Prelude.{
  ℕ, zero, suc, ◌+◌, Bool, true, false, Option, none, some, List, [], ◌∷◌, ◌++◌, Text, text_eq,
  codes, not, ◌||◌, ltb, leb, nat_beq, strip, is_empty, length, take, drop, map, keep, all,
  if◌then◌else◌,
}
use kelvin_assistant.Prelude.Dict.{Dict, put}
use kelvin_assistant.Prelude.Search.{
  starts_with, join, split_from, lines_from, before_space, after_space,
}
use kelvin_assistant.Prelude.Result.{Result, ok, ◌>>=◌, ◌>>◌, raise_if, value_error}
use kelvin_assistant.Domain.ContextGuard.{line_feed}
use kelvin_assistant.Domain.Knowledge.{
  SupportedMimeType, text_markdown, text_plain, KnowledgeDocument, KnowledgeChunk, make_chunk,
}

abbrev pub blank_line : Text
blank_line = line_feed ++ line_feed

-- `text[start : start + max]` for every start, before it is stripped. The fuel is the length of
-- the text: every step drops a character at least.
unfoldable pub slices : (fuel max_characters : ℕ) → Text → List Text
slices zero max_characters text = []
slices (suc fuel) max_characters [] = []
slices (suc fuel) max_characters (c ∷ text) =
    take max_characters (c ∷ text) ∷ slices fuel max_characters (drop max_characters (c ∷ text))

abbrev pub is_full : Text → Bool
is_full text = not (is_empty text)

-- `_split_long_text`
unfoldable pub split_long_text : Text → (max_characters : ℕ) → List Text
split_long_text text max_characters =
    keep is_full (map strip (slices (length text) max_characters text))

-- `f"{current}\n\n{paragraph}" if current else paragraph`
unfoldable pub candidate : (current paragraph : Text) → Text
candidate [] paragraph = paragraph
candidate (c ∷ current) paragraph = (c ∷ current) ++ (blank_line ++ paragraph)

-- `if current: chunks.append(current)`
unfoldable pub flush : Text → List Text
flush [] = []
flush (c ∷ current) = (c ∷ current) ∷ []

-- One round of the loop of `_split_text`: the chunks that it appends, and the next `current`.
unfoldable pub pack : (max_characters : ℕ) → (paragraph current : Text) → List Text × Text
pack max_characters paragraph current =
    if ltb max_characters (length paragraph)
    then (flush current ++ split_long_text paragraph max_characters, [])
    else if leb (length (candidate current paragraph)) max_characters
    then ([], candidate current paragraph)
    else (flush current, paragraph)

unfoldable pub pack_all : (max_characters : ℕ) → List Text → (current : Text) → List Text
pack_all max_characters [] current = flush current
pack_all max_characters (paragraph ∷ paragraphs) current =
    let step = pack max_characters paragraph current in
    step.0 ++ pack_all max_characters paragraphs step.1

-- `_split_text`
unfoldable pub split_text : Text → (max_characters : ℕ) → List Text
split_text text max_characters =
    pack_all max_characters (keep is_full (map strip (split_from 0 text blank_line))) []

pub record Section : Type 0 where
  pub content : Text
  pub heading : Option Text

-- `_extract_markdown_heading`
unfoldable pub extract_markdown_heading : Text → Option Text
extract_markdown_heading line =
    let stripped = strip line in
    let marker = before_space stripped in
    let title = strip (after_space stripped) in
    if not (starts_with stripped (codes "#"))
      || not (all (nat_beq b'#') marker)
      || ltb 6 (length marker)
      || is_empty title
    then none
    else some title

-- The section of the lines so far, unless they are blank.
unfoldable pub close_section : Option Text → List Text → List Section
close_section heading lines =
    if is_empty (strip (join line_feed lines))
    then []
    else (record { content = join line_feed lines; heading = heading }) ∷ []

-- The loop of `_markdown_sections`
unfoldable pub collect_sections : List Text → Option Text → List Text → List Section
collect_sections [] current_heading current_lines = close_section current_heading current_lines
collect_sections (line ∷ lines) current_heading current_lines =
    elim (extract_markdown_heading line) [
      | none ↦ collect_sections lines current_heading (current_lines ++ (line ∷ []))
      | (some heading) ↦
          close_section current_heading current_lines
          ++ collect_sections lines (some heading) (line ∷ [])
    ]

-- `sections or [...]`
unfoldable pub or_whole : Text → List Section → List Section
or_whole content [] = (record { content = content; heading = none }) ∷ []
or_whole content (s ∷ sections) = s ∷ sections

-- `_markdown_sections`
unfoldable pub markdown_sections : Text → List Section
markdown_sections content = or_whole content (collect_sections (lines_from false content) none [])

abbrev pub sections_of : SupportedMimeType → Text → List Section
sections_of text_markdown content = markdown_sections content
sections_of text_plain content = (record { content = content; heading = none }) ∷ []

abbrev pub with_heading : Option Text → Dict Text Text → Dict Text Text
with_heading none metadata = metadata
with_heading (some heading) metadata = put metadata (codes "heading") heading

-- The inner loop of `chunk`; `index` is `len(chunks)`
unfoldable pub chunk_contents :
    KnowledgeDocument → Option Text → (index : ℕ) → List Text → Result (List KnowledgeChunk)
chunk_contents document heading index [] = ok []
chunk_contents document heading index (content ∷ contents) = do
  chunk ← make_chunk document.source_uri index content (with_heading heading document.metadata)
  chunks ← chunk_contents document heading (index + 1) contents
  ok (chunk ∷ chunks)

unfoldable pub chunk_sections :
    (max_characters : ℕ)
    → KnowledgeDocument
    → (index : ℕ) → List Section
    → Result (List KnowledgeChunk)
chunk_sections max_characters document index [] = ok []
chunk_sections max_characters document index (section ∷ sections) = do
  first ← chunk_contents document section.heading index (split_text section.content max_characters)
  rest ← chunk_sections max_characters document (index + length first) sections
  ok (first ++ rest)

-- `ParagraphChunker(max_characters).chunk(document)`
unfoldable pub chunk : (max_characters : ℕ) → KnowledgeDocument → Result (List KnowledgeChunk)
chunk max_characters document = do
  raise_if (nat_beq max_characters 0) value_error
  chunk_sections max_characters document 0 (sections_of document.mime_type document.content)
