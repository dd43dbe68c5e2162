-- ===== src/Domain/Knowledge.antt =====
-- domain/knowledge.py: documents and their chunks. `make_*` is the constructor with its
-- `__post_init__`.
use kelvin_assistant.Prelude.{ℕ, Option, none, some, Text, strip, is_empty, if◌then◌else◌}
use kelvin_assistant.Prelude.Dict.{Dict}
use kelvin_assistant.Prelude.Result.{Result, ok, ◌>>◌, raise_if, knowledge_document_error}

pub data SupportedMimeType : Type 0 where
  text_markdown text_plain : SupportedMimeType

pub record KnowledgeDocument : Type 0 where
  pub source_uri : Text
  pub content : Text
  pub mime_type : SupportedMimeType
  pub title : Option Text
  pub metadata : Dict Text Text

-- `title.strip()`, where an empty title is none
unfoldable pub normalize_title : Option Text → Option Text
normalize_title none = none
normalize_title (some title) = if is_empty (strip title) then none else some (strip title)

unfoldable pub make_document :
    Text → Text → SupportedMimeType → Option Text → Dict Text Text → Result KnowledgeDocument
make_document source_uri content mime_type title metadata = do
  raise_if (is_empty (strip source_uri)) knowledge_document_error
  raise_if (is_empty (strip content)) knowledge_document_error
  ok (record {
    source_uri = strip source_uri;
    content = strip content;
    mime_type = mime_type;
    title = normalize_title title;
    metadata = metadata;
  })

pub record KnowledgeChunk : Type 0 where
  pub source_uri : Text
  pub chunk_index : ℕ
  pub content : Text
  pub metadata : Dict Text Text

unfoldable pub make_chunk : Text → ℕ → Text → Dict Text Text → Result KnowledgeChunk
make_chunk source_uri chunk_index content metadata = do
  raise_if (is_empty (strip source_uri)) knowledge_document_error
  raise_if (is_empty (strip content)) knowledge_document_error
  ok (record {
    source_uri = strip source_uri;
    chunk_index = chunk_index;
    content = strip content;
    metadata = metadata;
  })
