-- ===== src/Tests/Knowledge.antt =====
-- Chunks of small documents.
use kelvin_assistant.Prelude.{
  ◌≤◌, ◌≡◌, refl, none, [], ◌∷◌, ◌++◌, Text, codes, is_space, strip, All, arith,
}
use kelvin_assistant.Prelude.Dict.{put}
use kelvin_assistant.Prelude.Search.{
  starts_with, join, split_from, lines_from, is_line_end, before_space, after_space,
}
use kelvin_assistant.Prelude.Result.{ok}
use kelvin_assistant.Domain.ContextGuard.{line_feed}
use kelvin_assistant.Domain.Knowledge.{text_markdown, KnowledgeDocument, KnowledgeChunk, make_chunk}
use kelvin_assistant.Application.Knowledge.{
  slices, split_long_text, candidate, flush, pack, pack_all, split_text, extract_markdown_heading,
  close_section, collect_sections, or_whole, markdown_sections, chunk_contents, chunk_sections,
  chunk,
}
use kelvin_assistant.Prelude.Search.Visible.{visible, concat}
use kelvin_assistant.Application.Knowledge.Bounds.{Piece}
use kelvin_assistant.Application.Knowledge.Complete.{split_text_complete}
use kelvin_assistant.Application.Knowledge.Numbering.{Numbered, chunk-Numbered}

program : Unit {0}
unfolding is_space strip put starts_with join split_from lines_from is_line_end before_space
    after_space make_chunk slices split_long_text candidate flush pack pack_all split_text
    extract_markdown_heading close_section collect_sections or_whole markdown_sections
    chunk_contents chunk_sections chunk
program = tt

-- Two short paragraphs share a chunk, and a long one is cut.
splits :
    split_text
      (codes "a" ++ line_feed ++ line_feed ++ codes "b" ++ line_feed ++ line_feed ++ codes "cdefgh")
      4
    ≡ (codes "a" ++ line_feed ++ line_feed ++ codes "b") ∷ codes "cdef" ∷ codes "gh" ∷ []
unfolding program
splits = refl

abbrev two_paragraphs : Text
two_paragraphs = codes "a" ++ line_feed ++ line_feed ++ codes "cd efgh"

split_text_complete_example :
    (visible (concat (split_text (two_paragraphs) 4)) ≡ visible (two_paragraphs))
    × All (Piece 4) (split_text (two_paragraphs) 4)
split_text_complete_example = split_text_complete (two_paragraphs) 4 (omega arith)

abbrev document : KnowledgeDocument
document = record {
  source_uri = codes "n.md";
  content = codes "# T" ++ line_feed ++ codes "x";
  mime_type = text_markdown;
  title = none;
  metadata = [];
}

abbrev part : KnowledgeChunk
part = record {
  source_uri = codes "n.md";
  chunk_index = 0;
  content = codes "# T" ++ line_feed ++ codes "x";
  metadata = (codes "heading", codes "T") ∷ [];
}

chunks : chunk 20 document ≡ ok (part ∷ [])
unfolding program
chunks = refl

chunk-Numbered_example : (1 ≤ 20) × Numbered 20 document 0 (part ∷ [])
chunk-Numbered_example = chunk-Numbered 20 document chunks
