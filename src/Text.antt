-- ===== src/Text.antt =====
-- Text: util/text, the conversions of Text.cpp and the substring search of StringSearch.cpp.
pub mod Utf8
pub mod StringSearch
