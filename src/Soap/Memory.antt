-- ===== src/Soap/Memory.antt =====
-- An instance of `Xml` that keeps the elements themselves, as they are read.
use microfinance_microservic.Common.{refl}
use microfinance_microservic.Common.Text.{append}
use microfinance_microservic.Soap.Tree.{Document, document, seen, text_of, Xml}

abbrev pub memory : Xml Document
memory = record {
  tostring = λ e. document (seen e);
  fromstring = λ d. d;
  unicode = λ e. append "<detail>" (append (text_of e) "</detail>");
  read_back = λ e named h. refl;
  unicode_detail = λ s h. refl;
}
