-- ===== src/Aptpath.antt =====
-- internal/aptpath: the path grammar (Aptpath/Suite), the content sniffs (Aptpath/Sniff) and the
-- percent-encoding of upstream URLs (Aptpath/Encode).
pub mod Suite
pub mod Sniff
pub mod Encode
pub mod EncodeLaws
pub mod SniffLaws
mod Directory
pub mod Canonical
mod Tests
