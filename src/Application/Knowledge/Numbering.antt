-- ===== src/Application/Knowledge/Numbering.antt =====
-- The chunks of a whole document: their numbers, their sizes and their source.
use kelvin_assistant.Prelude.{
  ℕ, ◌+◌, ◌≤◌, ◌≡◌, refl, subst, Option, List, [], ◌∷◌, ◌++◌, Text, strip, length-strip, is_empty,
  nat_beq, length, All, arith,
}
use kelvin_assistant.Prelude.Dict.{Dict}
use kelvin_assistant.Prelude.Result.{
  ok, >>=-eq-ok, raise_if-eq-ok, returned, knowledge_document_error, value_error,
}
use kelvin_assistant.Domain.Knowledge.{KnowledgeDocument, KnowledgeChunk, make_chunk}
use kelvin_assistant.Application.Knowledge.{
  Section, split_text, sections_of, with_heading, chunk_contents, chunk_sections, chunk,
}
use kelvin_assistant.Application.Knowledge.Bounds.{Piece, split_text-Piece}

-- The chunk with this number of a document.
pub record IsChunk (m : ℕ) (document : KnowledgeDocument) (index : ℕ) (c : KnowledgeChunk)
    : Type 0 where
  pub number : c.chunk_index ≡ index
  pub source : c.source_uri ≡ strip document.source_uri
  pub piece : Piece m c.content

-- Chunks with the numbers from `index` on.
abbrev pub Numbered : ℕ → KnowledgeDocument → (index : ℕ) → List KnowledgeChunk → Type 0
Numbered m document index [] = Unit
Numbered m document index (c ∷ cs) = IsChunk m document index c × Numbered m document (index + 1) cs

Numbered-append :
    (m : ℕ) (document : KnowledgeDocument) (index : ℕ) (cs ds : List KnowledgeChunk)
    → Numbered m document index cs
    → Numbered m document (index + length cs) ds
    → Numbered m document index (cs ++ ds)
Numbered-append m document index [] ds hc hd =
    subst (λ i. Numbered m document i ds) (omega arith) hd
Numbered-append m document index (c ∷ cs) ds (first, rest) hd = (
  first,
  Numbered-append m document (index + 1) cs ds rest
      (subst (λ i. Numbered m document i ds) (omega arith) hd),
)

make_chunk-IsChunk :
    (m : ℕ) (document : KnowledgeDocument) (index : ℕ) (content : Text) (metadata : Dict Text Text)
    {c : KnowledgeChunk}
    → Piece m content
    → make_chunk document.source_uri index content metadata ≡ ok c
    → IsChunk m document index c
unfolding make_chunk
make_chunk-IsChunk m document index content metadata p h =
    let (_, h₁) =
      raise_if-eq-ok (is_empty (strip document.source_uri)) knowledge_document_error _ h in
    let (full, h₂) = raise_if-eq-ok (is_empty (strip content)) knowledge_document_error _ h₁ in
    returned (IsChunk m document index) h₂ (record {
      number = refl;
      source = refl;
      piece = record { short = omega (arith, length-strip content, p.short); full = full };
    })

chunk_contents-Numbered :
    (m : ℕ) (document : KnowledgeDocument) (heading : Option Text) (index : ℕ)
    (contents : List Text) {cs : List KnowledgeChunk}
    → All (Piece m) contents
    → chunk_contents document heading index contents ≡ ok cs
    → Numbered m document index cs
unfolding chunk_contents
chunk_contents-Numbered m document heading index [] p h = returned (Numbered m document index) h tt
chunk_contents-Numbered m document heading index (content ∷ contents) (p, ps) h =
    let metadata = with_heading heading document.metadata in
    let (c, made, h₁) = >>=-eq-ok (make_chunk document.source_uri index content metadata) _ h in
    let (cs, rest, h₂) = >>=-eq-ok (chunk_contents document heading (index + 1) contents) _ h₁ in
    returned (Numbered m document index) h₂ (
      make_chunk-IsChunk m document index content metadata p made,
      chunk_contents-Numbered m document heading (index + 1) contents ps rest,
    )

chunk_sections-Numbered :
    (m : ℕ) (document : KnowledgeDocument) (index : ℕ) (sections : List Section)
    {cs : List KnowledgeChunk}
    → 1 ≤ m
    → chunk_sections m document index sections ≡ ok cs
    → Numbered m document index cs
unfolding chunk_sections
chunk_sections-Numbered m document index [] pos h = returned (Numbered m document index) h tt
chunk_sections-Numbered m document index (s ∷ sections) pos h =
    let contents = split_text s.content m in
    let (first, made, h₁) = >>=-eq-ok (chunk_contents document s.heading index contents) _ h in
    let (rest, others, h₂) =
      >>=-eq-ok (chunk_sections m document (index + length first) sections) _ h₁ in
    returned (Numbered m document index) h₂ (
      Numbered-append m document index first rest
        (chunk_contents-Numbered m document s.heading index contents
          (split_text-Piece s.content m pos) made)
        (chunk_sections-Numbered m document (index + length first) sections pos others))

-- A document is chunked only with a positive limit; then the chunks are numbered from 0 without a
-- gap over all its sections, name the document's source, and each has a content that is not empty
-- and within the limit.
pub chunk-Numbered :
    (m : ℕ) (document : KnowledgeDocument) {cs : List KnowledgeChunk}
    → chunk m document ≡ ok cs
    → (1 ≤ m) × Numbered m document 0 cs
unfolding chunk
chunk-Numbered m document h =
    let (positive, h₁) = raise_if-eq-ok (nat_beq m 0) value_error _ h in
    let pos : 1 ≤ m = ground arith in
    (
      pos,
      chunk_sections-Numbered m document 0 (sections_of document.mime_type document.content) pos h₁,
    )
